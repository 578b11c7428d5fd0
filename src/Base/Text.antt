-- ===== src/Base/Text.antt =====
-- What the code uses of Go's package strings. Positions and lengths count bytes.
use Prim.Native.Nat.{◌+◌, ◌-◌}
use Prim.Native.Char.{code, len_utf8}
use Prim.Native.String.len
use Prim.Native.String.{String, len, slice, [], ◌∷◌, ◌++◌}
use mathlib.Core.Bool.{Bool, true, ◌&&◌, not}
use mathlib.Core.List.{List}
use mathlib.Core.Logic.{◌↔◌}
use mathlib.Core.Path.{◌≡◌, refl, sym, ap, ◌∙◌}
use native.Mathlib.Omega.{arith}
use text.Mathlib.Text.{◌==◌, starts_with}
use text.Mathlib.TextEquality.{eq_iff, starts_with_iff}
use text.Mathlib.TextPositions.{len_utf8-pos, len-append, slice-append_right, starts_with-append}
use clusterset_server.Base.Tests.{eq_self, ltb, nat_eq, if◌then◌else◌}

-- strings.HasPrefix(s, t)
abbrev pub has_prefix : String → String → Bool
has_prefix s t = starts_with s t

-- strings.HasSuffix(s, t): len(s) >= len(t) && s[len(s)-len(t):] == t
unfoldable pub has_suffix : String → String → Bool
has_suffix s t = not (ltb (len s) (len t)) && slice s (len s - len t) (len s) == t

-- strings.TrimRight(s, "*")
unfoldable pub trim_right_stars : String → String
trim_right_stars [] = ""
trim_right_stars (c ∷ s) =
    let rest = trim_right_stars s in if rest == "" && nat_eq (code c) b'*' then "" else c ∷ rest

-- A text that ends in `u`, as long as `t`, has the suffix `t` exactly when `u` is `t`.
suffix-append_eq : (s u t : String) → len u ≡ len t → has_suffix (s ++ u) t ≡ (u == t)
unfolding has_suffix
suffix-append_eq s u t same =
    let start : len (s ++ u) - len t ≡ len s = omega (arith, len-append s u) in
    let stop : len (s ++ u) ≡ len s + len u = len-append s u in
    rw start (rw stop (rw (slice-append_right s u) (ground arith)))

pub has_suffix-append : (s t : String) → has_suffix (s ++ t) t ≡ true
has_suffix-append s t = rw (suffix-append_eq s t t refl) (eq_self t)

split_of_matches :
    (p s t u : String)
    → len p ≡ 2
    → p ++ u ≡ s
    → nat_eq (len s) (len t + 2) ≡ true
    → has_suffix s t ≡ true
    → s ≡ p ++ t
split_of_matches p s t u two e sizes suffix =
    let same : len u ≡ len t = ground (arith, len-append p u) in
    let ends : (u == t) ≡ true = ground (arith, suffix-append_eq p u t same) in
    sym e ∙ ap (◌++◌ p) ((eq_iff u t).0 ends)

-- A text two bytes longer than `t`, that begins with a text `p` of two bytes and ends with `t`,
-- is `p` followed by `t`.
pub prefix_suffix_iff :
    (p s t : String)
    → len p ≡ 2
    → ((nat_eq (len s) (len t + 2) && has_prefix s p && has_suffix s t) ≡ true) ↔ (s ≡ p ++ t)
prefix_suffix_iff p s t two = (
  λ h.
      let (u, e) = (starts_with_iff s p).0 (ground arith) in
      split_of_matches p s t u two e (ground arith) (ground arith),
  λ e. rw e (ground (arith, len-append p t, starts_with-append p t, has_suffix-append p t)),
)

-- A text of no bytes is empty.
pub len-eq-zero_iff : (s : String) → (nat_eq (len s) 0 ≡ true) ↔ (s ≡ "")
len-eq-zero_iff [] = (λ h. refl, λ h. refl)
len-eq-zero_iff (c ∷ s) = (λ h. absurd (filled (ground arith)), λ h. absurd (filled (ap len h)))
  where
    filled : len (c ∷ s) ≡ 0 → ⊥
    filled h =
        let (k, e) = len_utf8-pos c in
        let sum : len (c ∷ s) ≡ len_utf8 c + len s = λ i. len.cons c s i in omega (arith, e, sum)

-- strings.Join(texts, separator)
unfoldable pub join : List String → String → String
join List.[] separator = ""
join (List.◌∷◌ x List.[]) separator = x
join (List.◌∷◌ x (List.◌∷◌ y texts)) separator =
    x ++ (separator ++ join (List.◌∷◌ y texts) separator)
