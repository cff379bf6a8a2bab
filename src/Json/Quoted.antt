-- ===== src/Json/Quoted.antt =====
-- A text that is put between quotes cannot end them.
use Prim.Native.Char.{Char, code}
use Prim.Native.String
use Prim.Native.String.append
use dynamic_nft_krnl.Base.{
  ℕ, ◌-◌, ◌∙◌, ap, Bool, true, false, Option, none, some, String, if◌then◌else◌, ◌==◌, ◌≡◌, refl,
  arith,
}
use dynamic_nft_krnl.Json.{two, control, hex_digit, escape_char, escaped}

-- What stands after the quote that ends a JSON string, from inside it; a backslash takes the next
-- character with it.
unfoldable pub after_string : Bool → String → Option String
after_string b String.[] = none
after_string true (String.◌∷◌ c s) = after_string false s
after_string false (String.◌∷◌ c s) =
    let rest = after_string (code c == 92) s in if code c == 34 then some s else rest

-- Neither a quote nor a backslash.
abbrev IsPlain : Char → Type 0
IsPlain c = ((code c == 34) ≡ false) × ((code c == 92) ≡ false)

choice-IsPlain : (b : Bool) (c d : Char) → IsPlain c → IsPlain d → IsPlain (if b then c else d)
choice-IsPlain true c d p q = p
choice-IsPlain false c d p q = q

hex_digit-IsPlain : (n : ℕ) → IsPlain (hex_digit n)
unfolding hex_digit
hex_digit-IsPlain n =
    choice-IsPlain (n == 0) "0" _ (refl, refl)
      (choice-IsPlain (n == 1) "1" _ (refl, refl)
        (choice-IsPlain (n == 2) "2" _ (refl, refl)
          (choice-IsPlain (n == 3) "3" _ (refl, refl)
            (choice-IsPlain (n == 4) "4" _ (refl, refl)
              (choice-IsPlain (n == 5) "5" _ (refl, refl)
                (choice-IsPlain (n == 6) "6" _ (refl, refl)
                  (choice-IsPlain (n == 7) "7" _ (refl, refl)
                    (choice-IsPlain (n == 8) "8" _ (refl, refl)
                      (choice-IsPlain (n == 9) "9" _ (refl, refl)
                        (choice-IsPlain (n == 10) "a" _ (refl, refl)
                          (choice-IsPlain (n == 11) "b" _ (refl, refl)
                            (choice-IsPlain (n == 12) "c" _ (refl, refl)
                              (choice-IsPlain (n == 13) "d" _ (refl, refl)
                                (choice-IsPlain (n == 14) "e" _ (refl, refl)
                                  (refl, refl)))))))))))))))

-- What stands for a character is passed over.
pub after_string-escape_char :
    (c : Char) (s : String) → after_string false (escape_char c s) ≡ after_string false s
unfolding escape_char after_string
after_string-escape_char c s =
    ground (arith, hex_digit-IsPlain (code c), hex_digit-IsPlain (code c - 16))

two-append : (c d : Char) (s t : String) → String.◌++◌ (two c d s) t ≡ two c d (String.◌++◌ s t)
two-append c d s t = append.cons c (String.◌∷◌ d s) t ∙ ap (λ u. String.◌∷◌ c u) (append.cons d s t)

control-append :
    (x y : Char) (s t : String) → String.◌++◌ (control x y s) t ≡ control x y (String.◌++◌ s t)
control-append x y s t = simp (append.cons)

escape_char-append :
    (c : Char) (s t : String) → String.◌++◌ (escape_char c s) t ≡ escape_char c (String.◌++◌ s t)
unfolding escape_char
escape_char-append c s t = ground (
  arith,
  two-append "\\" "\"" s t,
  two-append "\\" "\\" s t,
  two-append "\\" "b" s t,
  two-append "\\" "t" s t,
  two-append "\\" "n" s t,
  two-append "\\" "f" s t,
  two-append "\\" "r" s t,
  control-append "0" (hex_digit (code c)) s t,
  control-append "1" (hex_digit (code c - 16)) s t,
  append.cons c s t,
)

-- After a text that was escaped the string goes on.
pub after_string-escaped :
    (s rest : String) → after_string false (String.◌++◌ (escaped s) rest) ≡ after_string false rest
unfolding escaped
after_string-escaped String.[] rest = rw (append.nil rest)
after_string-escaped (String.◌∷◌ c s) rest =
    rw (escape_char-append c (escaped s) rest)
      (after_string-escape_char c (String.◌++◌ (escaped s) rest) ∙ after_string-escaped s rest)
