-- ===== src/Sessions/Middleware/Indexed.antt =====
-- Every session of a user is in the user's index (app/core/sessions).
use mathlib.Core.Option.{some-injective}
use rfp.Prelude.{
  Bool-cases, List, Option, String, Text, [], arith, eq_iff, eq_refl, false, if_both, inl, inr,
  member, none, refl, same_text, same_text_iff, some, str_eq, sym, true, ◌∙◌, ◌∷◌, ◌≡◌, ◌⊎◌,
}
use rfp.Sessions.{
  SessionRecord, SessionStore, add_member, delete, discard, put, register_for_user, set_index,
  unregister_for_user,
}

abbrev pub Indexed : SessionStore → Type 0
Indexed store =
    (k : Text) (r : SessionRecord) (user : String)
    → store.records k ≡ some r
    → r.user_id ≡ some user
    → member k (store.user_index user) ≡ true

pub put-none-inv :
    (s k : Text) (records : Text → Option SessionRecord) (r : SessionRecord)
    → put s none records k ≡ some r
    → (same_text s k ≡ false) × (records k ≡ some r)
unfolding put
put-none-inv s k records r e = elim (Bool-cases (same_text s k)) [
  | inl is ↦ absurd (ground (arith, e, is))
  | inr is_not ↦ (is_not, ground (arith, e, is_not))
]

pub put-some-inv :
    (s k : Text) (q : SessionRecord) (records : Text → Option SessionRecord) (r : SessionRecord)
    → put s (some q) records k ≡ some r
    → ((s ≡ k) × (q ≡ r)) ⊎ (records k ≡ some r)
unfolding put
put-some-inv s k q records r e = elim (Bool-cases (same_text s k)) [
  | inl is ↦ inl ((same_text_iff s k).0 is, some-injective _ _ (ground (arith, e, is)))
  | inr is_not ↦ inr (ground (arith, e, is_not))
]

pub same_text_refl : (k : Text) → same_text k k ≡ true
same_text_refl k = (same_text_iff k k).1 refl

member-add_member : (s : Text) (ms : List Text) → member s (add_member s ms) ≡ true
unfolding add_member member
member-add_member s ms =
    if_both (λ (xs : List Text). member s xs ≡ true) (member s ms) _ _ (λ e. e)
      (λ _. ground (arith, same_text_refl s))

member_add : (s k : Text) (ms : List Text) → member k ms ≡ true → member k (add_member s ms) ≡ true
unfolding add_member member
member_add s k ms e =
    if_both (λ (xs : List Text). member k xs ≡ true) (member s ms) _ _ (λ _. e)
      (λ _. ground (arith, e))

same_text_off :
    (s k m : Text) → same_text s k ≡ false → same_text s m ≡ true → same_text k m ≡ false
same_text_off s k m off on = elim (Bool-cases (same_text k m)) [
  | inr is_not ↦ is_not
  | inl is ↦
      let e : s ≡ k = (same_text_iff s m).0 on ∙ sym ((same_text_iff k m).0 is) in
      absurd (ground (arith, off, (same_text_iff s k).1 e))
]

member-discard :
    (s k : Text) (ms : List Text)
    → same_text s k ≡ false
    → member k ms ≡ true
    → member k (discard s ms) ≡ true
unfolding discard member
member-discard s k [] off e = e
member-discard s k (m ∷ ms) off e = elim (Bool-cases (same_text s m)) [
  | inl is ↦ ground (arith, is, e, same_text_off s k m off is, member-discard s k ms off)
  | inr is_not ↦ ground (arith, is_not, e, member-discard s k ms off)
]

pub register-keeps :
    (user : String) (s : Text) (store : SessionStore) (k : Text) (other : String)
    → member k (store.user_index other) ≡ true
    → member k ((register_for_user user s store).user_index other) ≡ true
unfolding register_for_user set_index
register-keeps user s store k other e =
    if_both (λ (xs : List Text). member k xs ≡ true) (str_eq user other) _ _
      (λ is. member_add s k _ (rw ((eq_iff user other).0 is) e)) (λ _. e)

pub register-enters :
    (user : String) (s : Text) (store : SessionStore)
    → member s ((register_for_user user s store).user_index user) ≡ true
unfolding register_for_user set_index
register-enters user s store = rw (eq_refl user) (member-add_member s (store.user_index user))

unregister-keeps :
    (user : String) (s : Text) (store : SessionStore) (k : Text) (other : String)
    → same_text s k ≡ false
    → member k (store.user_index other) ≡ true
    → member k ((unregister_for_user user s store).user_index other) ≡ true
unfolding unregister_for_user set_index
unregister-keeps user s store k other off e =
    if_both (λ (xs : List Text). member k xs ≡ true) (str_eq user other) _ _
      (λ is. member-discard s k _ off (rw ((eq_iff user other).0 is) e)) (λ _. e)

pub delete-Indexed : (s : Text) (store : SessionStore) → Indexed store → Indexed (delete s store)
unfolding delete
delete-Indexed s store h k r user e f = h k r user (put-none-inv s k store.records r e).1 f

pub delete_unregister-Indexed :
    (user : String) (s : Text) (store : SessionStore)
    → Indexed store
    → Indexed (unregister_for_user user s (delete s store))
unfolding delete unregister_for_user
delete_unregister-Indexed user s store h k r other e f =
    let (off, e') = put-none-inv s k store.records r e in
    unregister-keeps user s store k other off (h k r other e' f)
