-- ===== src/Artifact/Path/Segments.antt =====
-- Joining one segment that is not `..`.
use multiagent.Base.{
  ◌≡◌, refl, true, false, some, [], ◌∷◌, ◌++◌, arith, if◌then◌else◌, is_nil, ==_iff, inl, inr,
  Bool-cases,
}
use multiagent.Base.Text.{Text, codes, text_eq, text_eq_iff, starts_with}
use multiagent.Artifact.Path.{
  has_separator, below, walk, push, segments, walk_all, path_join, after_prefix, is_local,
  is_behind, within_root,
}

-- A text that is one segment of a path, and neither empty nor `..`.
pub record IsSegment (s : Text) : Type 0 where
  pub given : is_nil s ≡ false
  pub whole : has_separator s ≡ false
  pub inside : text_eq s (codes "..") ≡ false

segments-whole : (s : Text) → has_separator s ≡ false → segments s ≡ s ∷ []
unfolding segments push has_separator
segments-whole [] h = refl
segments-whole (c ∷ s) h =
    let rest : segments s ≡ s ∷ [] = segments-whole s (ground (arith, h)) in
    rw rest (ground (arith, h))

after_prefix_self : (a b : Text) → after_prefix a (a ++ b) ≡ some b
unfolding after_prefix
after_prefix_self [] b = refl
after_prefix_self (x ∷ a) b = ground (arith, ==_iff x x, after_prefix_self a b)

is_local-whole :
    (s : Text) → has_separator s ≡ false → text_eq s (codes "..") ≡ false → is_local s ≡ true
unfolding is_local starts_with has_separator text_eq
is_local-whole [] h d = refl
is_local-whole (a ∷ []) h d = ground (arith, h)
is_local-whole (a ∷ b ∷ []) h d = ground (arith, h, d)
is_local-whole (a ∷ b ∷ c ∷ s) h d = ground (arith, h)

module _ (d s : Text) (h : IsSegment s) where
  -- The directory itself for `.`, and else the segment is added.
  pub path_join-segment : path_join d s ≡ (if text_eq s (codes ".") then d else below d ++ s)
  unfolding path_join walk_all walk
  path_join-segment = rw (segments-whole s h.whole, h.given, h.inside) refl

  pub within_root-path_join : within_root d (path_join d s) ≡ true
  unfolding within_root is_behind
  within_root-path_join = rw path_join-segment (elim (Bool-cases (text_eq s (codes "."))) [
    | inl dot ↦ rw (dot, (text_eq_iff d d).1 refl) refl
    | inr other ↦
        rw (other, after_prefix_self (below d) s, is_local-whole s h.whole h.inside) (ground arith)
  ])
