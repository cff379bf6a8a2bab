-- ===== src/Template/Tests.antt =====
-- Rendering at concrete templates.
use dynamic_nft_krnl.Base.{◌≡◌, refl, none, some, String, true, false, [], ◌∷◌, if◌then◌else◌}
use text.Mathlib.Text.{◌==◌ as str_eq}
use dynamic_nft_krnl.Json.{escaped, quoted}
use dynamic_nft_krnl.Fixtures.{plain}
use dynamic_nft_krnl.Template.{
  Variables, words, flag, rendered, missing_variables, render_template, match_at, skip, variable_of,
  replace_from,
}
use dynamic_nft_krnl.Template.Inside.{render_inside}
use dynamic_nft_krnl.Json.Quoted.{after_string}

abbrev named : Variables
named k =
    if str_eq k "name"
    then some (words "a\"b")
    else if str_eq k "on"
    then some (flag true)
    else none

renders :
    render_template plain named "{\"n\": \"{{ name }}\", \"m\": {{name}}, \"x{{\": {{on}}}"
    ≡ rendered "{\"n\": \"a\\\"b\", \"m\": \"a\\\"b\", \"x{{\": true}"
unfolding render_template escaped quoted
renders = refl

misses : render_template plain named "{{{a-b}} {{name}}" ≡ missing_variables ("a-b" ∷ [])
unfolding render_template escaped quoted
misses = refl

-- The text holds a quote, and the string still ends where the template ends it.
render_inside_example :
    (out' : String) × (after_string false "a\\\"b\", 1" ≡ some out')
    × (replace_from plain named (some "\"") 0 false ", 1" ≡ some out')
render_inside_example =
    render_inside plain named "{" "{name}}\", 1" ", 1" "name" "a\"b" 7 "a\\\"b\", 1"
      (unfold match_at in refl) (unfold skip in refl) (unfold variable_of in refl)
      (unfold replace_from in unfold escaped in refl)
