-- ===== src/Python/Strip.antt =====
-- Stripping a text twice strips it once.
use Prim.Native.Char.{code}
use frappe_erp_next.Prelude.{
  and_absorbs, String, ◌&&◌, ◌≡◌, refl, ap, ◌∙◌, ◌==◌, Bool-cases, inl, inr,
}
use frappe_erp_next.Python.{is_space, lstrip, rstrip, strip}

lstrip-lstrip : (s : String) → lstrip (lstrip s) ≡ lstrip s
unfolding lstrip
lstrip-lstrip String.[] = refl
lstrip-lstrip (String.◌∷◌ c s) = elim (Bool-cases (is_space (code c))) [
  | inl e ↦ rw e (lstrip-lstrip s)
  | inr e ↦ rw (e, e) refl
]

rstrip-rstrip : (s : String) → rstrip (rstrip s) ≡ rstrip s
unfolding rstrip
rstrip-rstrip String.[] = refl
rstrip-rstrip (String.◌∷◌ c s) = elim (Bool-cases (rstrip s == "" && is_space (code c))) [
  | inl e ↦ rw e refl
  | inr e ↦ rw (e, rstrip-rstrip s, e) refl
]

-- What is stripped on both sides begins with no space.
lstrip-rstrip : (s : String) → lstrip (rstrip (lstrip s)) ≡ rstrip (lstrip s)
unfolding lstrip rstrip
lstrip-rstrip String.[] = refl
lstrip-rstrip (String.◌∷◌ c s) = elim (Bool-cases (is_space (code c))) [
  | inl e ↦ rw e (lstrip-rstrip s)
  | inr e ↦ rw (e, e, and_absorbs (rstrip s == ""), e) refl
]

pub strip-strip : (s : String) → strip (strip s) ≡ strip s
unfolding strip
strip-strip s = ap rstrip (lstrip-rstrip s) ∙ rstrip-rstrip (lstrip s)
