-- ===== src/Config/Names.antt =====
-- `kstricmp` of include/kclib.h compares texts without regard to case.
use shmdos.Prelude.{ℕ, ◌≡◌, ◌≢◌, ◌↔◌, refl, [], ◌∷◌, map, arith}
use shmdos.Prelude.Int.{pos}
use shmdos.Config.Param.{Text, ktoupper, kstricmp}
use shmdos.Config.Lines.{All}

ktoupper-ne_zero : (c : ℕ) → c ≢ 0 → ktoupper c ≢ 0
unfolding ktoupper
ktoupper-ne_zero c h = ground arith

-- For two texts with no 0 in them, the result is 0 exactly if they are the same in capitals.
pub kstricmp-ktoupper :
    (s t : Text)
    → All (λ c. c ≢ 0) s
    → All (λ c. c ≢ 0) t
    → (kstricmp s t ≡ pos 0) ↔ (map ktoupper s ≡ map ktoupper t)
unfolding kstricmp
kstricmp-ktoupper [] [] hs ht = (λ e. refl, λ e. refl)
kstricmp-ktoupper [] (b ∷ t) hs ht = ground (arith, ktoupper-ne_zero b ht.0)
kstricmp-ktoupper (a ∷ s) [] hs ht = ground (arith, ktoupper-ne_zero a hs.0)
kstricmp-ktoupper (a ∷ s) (b ∷ t) hs ht = ground (arith, hs.0, kstricmp-ktoupper s t hs.1 ht.1)
