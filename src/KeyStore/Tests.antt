-- ===== src/KeyStore/Tests.antt =====
-- A run of the key table, and the theorem at a concrete input.
use hermes_forge_public.Prelude.{◌≡◌, refl, false, some, List, [], ◌∷◌, map}
use hermes_forge_public.Prelude.Texts.{encode}
use hermes_forge_public.KeyStore.{Call, get, create, insert_key}
use hermes_forge_public.KeyStore.Unique.{Op, run}

abbrev working : Call
working = record { fails = λ p. false; now = 100 }

abbrev script : List (Call × Op)
script =
    (working, Op.creation (some (10 ∷ 255 ∷ [])) "ops" "admin")
    ∷ (working, Op.creation (some (1 ∷ [])) "ci" "")
    ∷ (working, Op.creation (some (2 ∷ [])) "ci" "user")
    ∷ []

stored_keys : map (λ k. k.key) (run script []) ≡ "hk_0aff" ∷ "hk_01" ∷ []
unfolding create insert_key get encode
stored_keys = refl
