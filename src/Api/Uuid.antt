-- ===== src/Api/Uuid.antt =====
-- `newUUID` of hermes/internal/httpapi/envelope_handler.go.
use hermes_forge_public.Prelude.{
  ℕ, zero, suc, ◌+◌, ◌-◌, ◌%◌, String, Option, none, some, List, [], ◌∷◌, take,
}
use hermes_forge_public.Prelude.Texts.{concat, encode}

-- `b[i] = f(b[i])`
unfoldable pub set_byte : ℕ → (ℕ → ℕ) → List ℕ → List ℕ
set_byte i f [] = []
set_byte zero f (b ∷ bytes) = f b ∷ bytes
set_byte (suc i) f (b ∷ bytes) = b ∷ set_byte i f bytes

abbrev pub drop : ℕ → List ℕ → List ℕ
drop zero bytes = bytes
drop (suc n) [] = []
drop (suc n) (b ∷ bytes) = drop n bytes

-- `b[i:j]`
abbrev pub slice : ℕ → ℕ → List ℕ → List ℕ
slice i j bytes = take (j - i) (drop i bytes)

-- The bits of version and variant.
unfoldable pub mark_version : List ℕ → List ℕ
mark_version bytes = set_byte 8 (λ b. b % 64 + 128) (set_byte 6 (λ b. b % 16 + 64) bytes)

-- The argument is the 16 bytes of `rand.Read`, `none` its error.
unfoldable pub new_uuid : Option (List ℕ) → Option String
new_uuid none = none
new_uuid (some bytes) =
    let b = mark_version bytes in
    some (
      concat (
        encode (slice 0 4 b)
        ∷ "-"
        ∷ encode (slice 4 6 b)
        ∷ "-"
        ∷ encode (slice 6 8 b)
        ∷ "-"
        ∷ encode (slice 8 10 b)
        ∷ "-"
        ∷ encode (slice 10 16 b)
        ∷ []))
