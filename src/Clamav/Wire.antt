-- ===== src/Clamav/Wire.antt =====
-- The INSTREAM framing of app/services/clamav_client.py, read back as clamd documents it: a length of
-- four bytes, that many bytes, and so on up to a length of zero.
use Prim.Native.Nat.{◌%◌, ◌/◌}
use rfp.Clamav.{pack_length, zero_chunk}
use rfp.Prelude.{
  Option, Text, [], ap, arith, drop, false, if◌then◌else◌, length, none, refl, some, suc, take,
  zero, ℕ, ◌*◌, ◌++◌, ◌+◌, ◌<◌, ◌==◌, ◌∙◌, ◌∷◌, ◌≡◌,
}

unfoldable pub unpack_length : ℕ → ℕ → ℕ → ℕ → ℕ
unpack_length a b c d = a * 16777216 + b * 65536 + c * 256 + d

abbrev pub prepend : Text → Option Text → Option Text
prepend chunk none = none
prepend chunk (some rest) = some (chunk ++ rest)

-- One length is read for each unit of fuel.
unfoldable pub unframe : ℕ → Text → Option Text
unframe zero wire = none
unframe (suc fuel) (a ∷ b ∷ c ∷ d ∷ rest) =
    let size = unpack_length a b c d in
    let later = unframe fuel (drop size rest) in
    if size == 0 then some [] else prepend (take size rest) later
unframe (suc fuel) _ = none

unpack-pack :
    (n : ℕ)
    → n < 4294967296
    → unpack_length (n / 16777216 % 256) (n / 65536 % 256) (n / 256 % 256) (n % 256) ≡ n
unfolding unpack_length
unpack-pack n h = omega (arith, h)

take_exact : (chunk rest : Text) → take (length chunk) (chunk ++ rest) ≡ chunk
take_exact [] rest = refl
take_exact (c ∷ cs) rest = ap (λ (t : Text). c ∷ t) (take_exact cs rest)

drop_exact : (chunk rest : Text) → drop (length chunk) (chunk ++ rest) ≡ rest
drop_exact [] rest = refl
drop_exact (c ∷ cs) rest = drop_exact cs rest

not_empty_length : (b : ℕ) (bs : Text) → (length (b ∷ bs) == 0) ≡ false
not_empty_length b bs = ground arith

-- A frame is read back.
pub unframe_frame :
    (fuel b : ℕ) (bs rest : Text)
    → length (b ∷ bs) < 4294967296
    → unframe (suc fuel) (pack_length (length (b ∷ bs)) ++ ((b ∷ bs) ++ rest))
      ≡ prepend (b ∷ bs) (unframe fuel rest)
unfolding unframe pack_length
unframe_frame fuel b bs rest h = rw (unpack-pack (length (b ∷ bs)) h) (
    rw (not_empty_length b bs) (
      ap (λ (t : Text). prepend t (unframe fuel (drop (length (b ∷ bs)) ((b ∷ bs) ++ rest))))
        (take_exact (b ∷ bs) rest)
      ∙ ap (λ (t : Text). prepend (b ∷ bs) (unframe fuel t)) (drop_exact (b ∷ bs) rest)))

pub unframe_zero : (fuel : ℕ) → unframe (suc fuel) zero_chunk ≡ some []
unfolding unframe unpack_length
unframe_zero fuel = refl
