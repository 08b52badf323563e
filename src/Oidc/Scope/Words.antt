-- ===== src/Oidc/Scope/Words.antt =====
-- Splitting a text into words and joining words into a text.
use my_auth.Text.{is_space, is_empty, Text}
use my_auth.Prelude.{
  sym, true, inr, refl, inl, [], ap, arith, ◌∙◌, ◌++◌, Bool-cases, false, ◌∷◌, ◌≡◌, ℕ, All, any,
  List,
}
use my_auth.Oidc.Scope.{split, join, begins_word, prepend}

-- A word is a text of one character or more, none of them a space.
abbrev pub IsWord : Text → Type 0
IsWord w = (is_empty w ≡ false) × (any is_space w ≡ false)

prepend-IsWord :
    (c : ℕ) (ws : List Text) → is_space c ≡ false → All IsWord ws → All IsWord (prepend c ws)
unfolding any
prepend-IsWord c [] solid h = ((refl, ground arith), tt)
prepend-IsWord c (w ∷ ws) solid h = ((refl, ground (arith, h.0)), h.1)

pub split-IsWord : (s : Text) → All IsWord (split s)
unfolding split any
split-IsWord [] = tt
split-IsWord (c ∷ s) = elim (Bool-cases (is_space c)) [
  | inl blank ↦ rw blank (split-IsWord s)
  | inr solid ↦ elim (Bool-cases (begins_word s)) [
    | inl goes ↦ rw (solid, goes) (prepend-IsWord c (split s) solid (split-IsWord s))
    | inr ends ↦ rw (solid, ends) ((refl, ground arith), split-IsWord s)
  ]
]

split-begins :
    (c : ℕ) (s : Text)
    → is_space c ≡ false
    → begins_word s ≡ true
    → split (c ∷ s) ≡ prepend c (split s)
unfolding split
split-begins c s solid goes = rw (solid, goes) refl

split-ends :
    (c : ℕ) (s : Text)
    → is_space c ≡ false
    → begins_word s ≡ false
    → split (c ∷ s) ≡ (c ∷ []) ∷ split s
unfolding split
split-ends c s solid ends = rw (solid, ends) refl

-- A word before a text that does not go on with a word is the first word of the whole.
split-word :
    (w s : Text)
    → is_empty w ≡ false
    → any is_space w ≡ false
    → begins_word s ≡ false
    → split (w ++ s) ≡ w ∷ split s
unfolding any
split-word [] s full h b = absurd (ground arith)
split-word (c ∷ []) s full h b =
    let solid : is_space c ≡ false = ground arith in split-ends c s solid b
split-word (c ∷ d ∷ w) s full h b =
    let solid : is_space c ≡ false = ground arith in
    let next : begins_word (d ∷ (w ++ s)) ≡ true = ground arith in
    split-begins c (d ∷ (w ++ s)) solid next
    ∙ ap (prepend c) (split-word (d ∷ w) s refl (ground arith) b)

append_nil : (s : Text) → s ++ [] ≡ s
append_nil [] = refl
append_nil (c ∷ s) = ap (λ r. c ∷ r) (append_nil s)

-- Splitting joined words gives the words back.
pub split-join : (ws : List Text) → All IsWord ws → split (join ws) ≡ ws
unfolding split join
split-join [] h = refl
split-join (w ∷ []) h = ap split (sym (append_nil w)) ∙ split-word w [] h.0.0 h.0.1 refl
split-join (w ∷ v ∷ ws) h =
    split-word w (32 ∷ join (v ∷ ws)) h.0.0 h.0.1 refl ∙ ap (λ r. w ∷ r) (split-join (v ∷ ws) h.1)
