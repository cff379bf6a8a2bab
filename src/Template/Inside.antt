-- ===== src/Template/Inside.antt =====
-- A text put in between quotes stays between them.
use Prim.Native.Char.{Char}
use Prim.Native.String
use Prim.Native.String.append
use dynamic_nft_krnl.Base.{
  ℕ, zero, suc, ◌-◌, ◌≡◌, refl, sym, ◌∙◌, ap, false, Option, some, String, arith, Option-cases, inl,
  inr, some_injective, none-ne-some,
}
use dynamic_nft_krnl.Js.{Runtime}
use dynamic_nft_krnl.Json.{escaped}
use dynamic_nft_krnl.Json.Quoted.{after_string, after_string-escaped}
use dynamic_nft_krnl.Template.{
  Variables, words, match_at, after_two, skip, variable_of, replacement, prepend, replace_from,
  is_quote, first_char,
}

module _ (rt : Runtime) (vs : Variables) where
  -- The rest of a match that was replaced is passed over, whatever stood before.
  replace_from-skip :
      (n : ℕ) (prev : Option Char) (s rest : String)
      → skip n s ≡ String.◌∷◌ "\"" rest
      → replace_from rt vs prev n false s
        ≡ prepend (some "\"") (replace_from rt vs (some "\"") zero false rest)
  unfolding replace_from skip match_at after_two
  replace_from-skip zero prev s rest h = rw h refl
  replace_from-skip (suc n) prev String.[] rest h = cc
  replace_from-skip (suc n) prev (String.◌∷◌ c s) rest h = replace_from-skip n (some c) s rest h

  -- Between quotes a placeholder becomes its escaped text, and what follows is replaced in turn.
  replace_from-quoted :
      (c : Char) (t rest key value : String) (n : ℕ)
      → match_at (String.◌∷◌ c t) ≡ some (key, suc n)
      → skip n t ≡ String.◌∷◌ "\"" rest
      → variable_of vs key ≡ some (words value)
      → replace_from rt vs (some "\"") zero false (String.◌∷◌ c t)
        ≡ prepend
            (some (escaped value))
            (prepend (some "\"") (replace_from rt vs (some "\"") zero false rest))
  unfolding replace_from skip replacement
  replace_from-quoted c t rest key value n matched closed known =
      let e : suc n - 1 ≡ n = omega arith in
      let rendered = replace_from-skip n (some c) t rest closed in
      rw (matched, replace_from)
        (rw (known, replace_from)
          (ap
              (λ u.
                prepend (replacement rt (words value) (is_quote (first_char u)))
                  (replace_from rt vs (some c) (suc n - 1) false t))
              closed
            ∙ rw e (ap (prepend (some (escaped value))) rendered)))

-- A template's placeholder that stands between quotes and has a text for its variable, from the
-- placeholder on: what is rendered goes on inside the string, leaves it where the template does, and
-- what follows there is rendered as it would be on its own, whatever the text holds.
pub render_inside :
    (rt : Runtime) (vs : Variables) (c : Char) (t rest key value : String) (n : ℕ) (out : String)
    → match_at (String.◌∷◌ c t) ≡ some (key, suc n)
    → skip n t ≡ String.◌∷◌ "\"" rest
    → variable_of vs key ≡ some (words value)
    → replace_from rt vs (some "\"") zero false (String.◌∷◌ c t) ≡ some out
    → (out' : String) × (after_string false out ≡ some out')
      × (replace_from rt vs (some "\"") zero false rest ≡ some out')
unfolding after_string
render_inside rt vs c t rest key value n out matched closed known done =
    elim (Option-cases (replace_from rt vs (some "\"") zero false rest)) [
      | inl thrown ↦ absurd (none-ne-some out (rw thrown at whole))
      | inr (out', e) ↦ (
        out',
        rw (some_injective _ _ (sym (rw e at whole))) (
            after_string-escaped value (String.◌++◌ "\"" out')
            ∙ rw (append.cons "\"" "" out') (rw (append.nil out') refl)),
        e,
      )
    ]
  where
    whole :
        prepend
          (some (escaped value))
          (prepend (some "\"") (replace_from rt vs (some "\"") zero false rest))
        ≡ some out
    whole = sym (replace_from-quoted rt vs c t rest key value n matched closed known) ∙ done
