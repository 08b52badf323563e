-- ===== src/Oidc/Scope.antt =====
-- my_auth/oidc.py, `_scope_tuple`: scope values as words of one text, with `str.split` and
-- `" ".join`.
use my_auth.Equality.{list_eq, option_eq, nat_eq, ◌==◌}
use my_auth.Result.{protocol_error, err, ok, Result}
use my_auth.Text.{is_empty, is_space, strip, Text}
use my_auth.Prelude.{
  none, ◌&&◌, some, not, any, true, ◌++◌, if◌then◌else◌, [], false, Bool, Option, ◌∷◌, ℕ, List,
}
pub mod Words

-- Whether a text goes on with a word.
abbrev pub begins_word : Text → Bool
begins_word [] = false
begins_word (c ∷ s) = not (is_space c)

-- A character before the first word.
abbrev pub prepend : ℕ → List Text → List Text
prepend c [] = (c ∷ []) ∷ []
prepend c (w ∷ ws) = (c ∷ w) ∷ ws

-- s.split()
unfoldable pub split : Text → List Text
unfolding is_space
split [] = []
split (c ∷ s) =
    let words = split s in
    if is_space c then words else if begins_word s then prepend c words else (c ∷ []) ∷ words

-- " ".join(words)
unfoldable pub join : List Text → Text
join [] = []
join (w ∷ []) = w
join (w ∷ v ∷ ws) = w ++ 32 ∷ join (v ∷ ws)

abbrev pub member : Text → List Text → Bool
member w ws = any (λ v. v == w) ws

-- len(set(values)) == len(values)
unfoldable pub is_distinct_words : List Text → Bool
is_distinct_words [] = true
is_distinct_words (w ∷ ws) = not (member w ws) && is_distinct_words ws

-- `_scope_tuple` of a `str` or `None`
unfoldable pub scope_tuple : Option Text → Result (List Text)
unfolding strip split is_distinct_words
scope_tuple none = ok []
scope_tuple (some scope) =
    if is_empty (strip scope)
    then ok []
    else if is_distinct_words (split (strip scope))
    then ok (split (strip scope))
    else err protocol_error

-- A scope as a text or as its values.
pub data ScopeValue : Type 0 where
  text : Text → ScopeValue
  items : List Text → ScopeValue

-- The words of a text, which are different.
unfoldable pub distinct_words : Text → Result (List Text)
unfolding split is_distinct_words
distinct_words value =
    if is_empty value
    then ok []
    else if is_distinct_words (split value)
    then ok (split value)
    else err protocol_error

-- `_scope_tuple` of a `str`, or of an iterable, whose items are joined
unfoldable pub scope_values : ScopeValue → Result (List Text)
unfolding strip join distinct_words
scope_values (text scope) = distinct_words (strip scope)
scope_values (items values) = distinct_words (join values)
