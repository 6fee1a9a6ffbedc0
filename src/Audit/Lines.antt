-- ===== src/Audit/Lines.antt =====
-- The lines of the ledger's file, as bufio.Scanner hands them to scanVerifiedLocked. The carriage
-- return that ScanLines drops is white space, which strings.TrimSpace drops from the line.
use Prim.Native.Char.{Char, code}
use Prim.Native.String.{◌∷◌ as ◌▹◌, ◌++◌ as ◌<>◌}
use Prim.Native.String.append.{nil, cons}
use repo_ark.Prelude.{
  String, ◌≡◌, refl, ap, Bool, true, false, List, [], ◌∷◌, ◌++◌, arith, ◌==◌, if◌then◌else◌,
  Bool-cases, ◌||◌, inl, inr, ◌∙◌, sym, subst,
}

abbrev pub is_newline : Char → Bool
is_newline c = code c == 10

-- A character in front of the first line.
abbrev pub extend_first : Char → List String → List String
extend_first c [] = (String.◌∷◌ c "") ∷ []
extend_first c (l ∷ ls) = (String.◌∷◌ c l) ∷ ls

unfoldable pub lines : String → List String
lines String.[] = []
lines (String.◌∷◌ c s) =
    let rest = lines s in if is_newline c then "" ∷ rest else extend_first c rest

abbrev pub has_newline : String → Bool
has_newline String.[] = false
has_newline (String.◌∷◌ c s) = is_newline c || has_newline s

-- Whatever is appended starts a line of its own.
abbrev pub IsTerminated : String → Type 0
IsTerminated String.[] = Unit
IsTerminated (String.◌∷◌ c String.[]) = is_newline c ≡ true
IsTerminated (String.◌∷◌ c (String.◌∷◌ d s)) = IsTerminated (String.◌∷◌ d s)

nil-push : (t : String) → "" <> t ≡ t
nil-push t = λ i. nil t i

pub cons-push : (c : Char) (s t : String) → (c ▹ s) <> t ≡ c ▹ (s <> t)
cons-push c s t = λ i. cons c s t i

extend_first-append :
    (c : Char) (d : Char) (s : String) (ys : List String)
    → extend_first c (lines (String.◌∷◌ d s) ++ ys) ≡ extend_first c (lines (String.◌∷◌ d s)) ++ ys
unfolding lines
extend_first-append c d s ys = elim (Bool-cases (is_newline d)) [
  | inl e ↦ rw e refl
  | inr e ↦ rw e (lemma (lines s))
]
  where
    lemma :
        (ls : List String)
        → extend_first c (extend_first d ls ++ ys) ≡ extend_first c (extend_first d ls) ++ ys
    lemma [] = refl
    lemma (l ∷ ls) = refl

pub lines-append : (s t : String) → IsTerminated s → lines (s <> t) ≡ lines s ++ lines t
unfolding lines
lines-append String.[] t h = ap lines (nil-push t)
lines-append (String.◌∷◌ c String.[]) t h = rw (cons-push c "" t, nil-push t, h) refl
lines-append (String.◌∷◌ c (String.◌∷◌ d s)) t h =
    let ih = lines-append (String.◌∷◌ d s) t h in
    rw (cons-push c (d ▹ s) t) (elim (Bool-cases (is_newline c)) [
      | inl e ↦ rw e (ap (λ (ls : List String). "" ∷ ls) ih)
      | inr e ↦ rw e (rw ih (extend_first-append c d s (lines t)))
    ])

pub lines_of_one : (l : String) → has_newline l ≡ false → lines (l <> "\n") ≡ l ∷ []
unfolding lines
lines_of_one String.[] h = refl
lines_of_one (String.◌∷◌ c l) h =
    rw (cons-push c l "\n")
      (let (e, f) = halves (is_newline c) (has_newline l) h in rw e (rw (lines_of_one l f) refl))
  where
    halves : (a b : Bool) → (a || b) ≡ false → (a ≡ false) × (b ≡ false)
    halves a b h = ground arith

-- A text that ends in a line is terminated.
pub IsTerminated-push : (s l : String) → IsTerminated (s <> (l <> "\n"))
IsTerminated-push s l = subst IsTerminated (assoc s l) (ends (s <> l))
  where
    assoc : (s l : String) → (s <> l) <> "\n" ≡ s <> (l <> "\n")
    assoc String.[] l = ap (λ (t : String). t <> "\n") (nil-push l) ∙ sym (nil-push (l <> "\n"))
    assoc (String.◌∷◌ c s) l =
        ap (λ (t : String). t <> "\n") (cons-push c s l)
        ∙ cons-push c (s <> l) "\n"
        ∙ ap (λ (t : String). c ▹ t) (assoc s l)
        ∙ sym (cons-push c s (l <> "\n"))

    ends : (s : String) → IsTerminated (s <> "\n")
    ends String.[] = refl
    ends (String.◌∷◌ c String.[]) = rw (cons-push c "" "\n") refl
    ends (String.◌∷◌ c (String.◌∷◌ d s)) =
        rw (cons-push c (d ▹ s) "\n", cons-push d s "\n")
          (subst IsTerminated (cons-push d s "\n") (ends (d ▹ s)))
