-- ===== src/Text/Affix.antt =====
-- `starts_with` and `ends_with`.
use lsmtree.Base.{
  ◌-◌, ◌≡◌, refl, [], ◌∷◌, ◌++◌, ◌&&◌, length, drop, ltb, ◌==◌, if◌then◌else◌, Bool, true, false,
  ==-refl,
}
use lsmtree.Text.{Str}

-- `s.starts_with(p)`, the text first
unfoldable pub starts_with : Str → Str → Bool
starts_with s [] = true
starts_with [] (p ∷ ps) = false
starts_with (c ∷ s) (p ∷ ps) = c == p && starts_with s ps

-- `s.ends_with(p)`
unfoldable pub ends_with : Str → Str → Bool
unfolding starts_with
ends_with s p =
    if ltb (length s) (length p) then false else starts_with (drop (length s - length p) s) p

pub starts_with-append : (p rest : Str) → starts_with (p ++ rest) p ≡ true
unfolding starts_with
starts_with-append [] rest = refl
starts_with-append (c ∷ p) rest = rw (==-refl c) (starts_with-append p rest)
