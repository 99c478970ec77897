-- ===== src/Tests/Search.antt =====
-- src/search.c: a pattern and its regular expression.
use sciteco.Prelude.{◌≡◌, refl, false, List, [], ◌∷◌, arith}
use sciteco.QregSpec.{no_qregspec}
use sciteco.Search.{Characters, class_name, converted}
use sciteco.Search.Conversion.{pattern2regexp}
use sciteco.Search.Bounds.{IsBounded}
use sciteco.Search.Ending.{pattern2regexp-IsBounded}
use sciteco.Search.Elements.{
  Element, plain, many, choice, not_class, no_items, item, or, is_valid, print_all, regexp_all,
}
use sciteco.Search.Patterns.{pattern2regexp-print_all}

-- Bytes that escape to themselves.
abbrev characters : Characters
characters = record {
  is_utf8 = false;
  utf8_more = λ c. 0;
  utf8_get_char = λ cs. 0;
  regex_escape = λ s. s;
}

-- a^EM^E[x,^N^Ed]
abbrev elements : List Element
elements = plain b'a' ∷ many (choice (item (plain b'x') (or (item (not_class b'd') no_items)))) ∷ []

pattern2regexp-print_all_example :
    pattern2regexp characters no_qregspec (print_all elements) no_qregspec.new
    ≡ converted (regexp_all characters elements) [] no_qregspec.new
unfolding is_valid no_qregspec class_name
pattern2regexp-print_all_example =
    pattern2regexp-print_all characters no_qregspec (λ c cs. omega arith) no_qregspec.new elements
      refl

-- The regular expression a(?:(x|[^[:digit:]]))+
translated :
    pattern2regexp characters no_qregspec
      (b'a' ∷ 5 ∷ b'M' ∷ 5 ∷ b'[' ∷ b'x' ∷ b',' ∷ 0x0E ∷ 5 ∷ b'd' ∷ b']' ∷ [])
      no_qregspec.new
    ≡ converted
        (b'a' ∷ b'(' ∷ b'?' ∷ b':' ∷ b'(' ∷ b'x' ∷ b'|' ∷ b'[' ∷ b'^' ∷ b'[' ∷ b':' ∷ b'd' ∷ b'i'
          ∷ b'g' ∷ b'i' ∷ b't' ∷ b':' ∷ b']' ∷ b']' ∷ b')' ∷ b')' ∷ b'+' ∷ [])
        []
        no_qregspec.new
unfolding pattern2regexp no_qregspec
translated = refl

pattern2regexp-IsBounded_example :
    IsBounded 3 (pattern2regexp characters no_qregspec (b'a' ∷ 5 ∷ b'Q' ∷ []) no_qregspec.new)
unfolding no_qregspec
pattern2regexp-IsBounded_example =
    pattern2regexp-IsBounded characters no_qregspec (b'a' ∷ 5 ∷ b'Q' ∷ []) no_qregspec.new
