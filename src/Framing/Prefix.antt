-- ===== src/Framing/Prefix.antt =====
-- The length prefix: written and read back.
use server_application.Common.{
  ℕ, ◌+◌, ◌*◌, ◌^◌, ◌<◌, ◌≡◌, refl, [], ◌∷◌, ◌++◌, arith, length, length-append,
}
use server_application.Framing.{Bytes, big_endian, from_big_endian, frame}

pub from_big_endian-big_endian :
    (n : ℕ) (rest : Bytes) → n < 2 ^ 32 → from_big_endian (big_endian n ++ rest) ≡ n
unfolding big_endian from_big_endian
from_big_endian-big_endian n rest h = omega arith

pub length-big_endian : (n : ℕ) → length (big_endian n) ≡ 4
unfolding big_endian
length-big_endian n = refl

pub length-frame : (m rest : Bytes) → length (frame m ++ rest) ≡ 4 + length m + length rest
unfolding frame big_endian
length-frame m rest = omega (arith, length-append {0} m rest)

abbrev pub IsByte : ℕ → Type 0
IsByte c = c < 256

pub big_endian-from_big_endian :
    (a b c d : ℕ)
    → IsByte a
    → IsByte b
    → IsByte c
    → IsByte d
    → big_endian (a * 2 ^ 24 + b * 2 ^ 16 + c * 2 ^ 8 + d) ≡ a ∷ b ∷ c ∷ d ∷ []
unfolding big_endian
big_endian-from_big_endian a b c d ha hb hc hd = ground arith

pub framed_size : (m : Bytes) → length (frame m) ≡ 4 + length m
unfolding frame big_endian
framed_size m = omega arith
