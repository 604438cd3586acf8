-- ===== src/Scim/Filter/Tests.antt =====
-- The theorems about src/scim/filter.rs, at concrete filters.
use claude_code_aws_gateway.Prelude.{◌≡◌, ◌⊎◌, refl, arith, All}
use claude_code_aws_gateway.Prelude.Text.{Text, codes, text_beq, to_lower, eq_ignore_case}
use claude_code_aws_gateway.Scim.Filter.{
  ScimFilter, equals, conj, FilterError, ok, err, parts, trim, trim_start, trim_end, take_bytes,
  split_from, split_and, find_space, strip_quote, unescape, parse_comp_value, parse_attr_expr,
  parse_with, parse_filter, print,
}
use claude_code_aws_gateway.Scim.Filter.Split.{IsAscii}
use claude_code_aws_gateway.Scim.Filter.Total.{parse_filter-ascii}
use claude_code_aws_gateway.Scim.Filter.RoundTrip.{letter, parse_filter-print}

abbrev two : Text
two = codes "a eq true AND b eq \"x and y\""

short-IsAscii : All IsAscii (codes "a eq")
short-IsAscii = unfold IsAscii in (omega arith, (omega arith, (omega arith, (omega arith, tt))))

parse_filter-ascii_example :
    ((f : ScimFilter) × (parse_filter (codes "a eq") ≡ ok f))
    ⊎ ((e : FilterError) × (parse_filter (codes "a eq") ≡ err e))
parse_filter-ascii_example = parse_filter-ascii (codes "a eq") short-IsAscii

parse_filter-print_example :
    parse_filter (print (equals (codes "b") (codes "x"))) ≡ ok (equals (codes "b") (codes "x"))
parse_filter-print_example = parse_filter-print (equals (codes "b") (codes "x")) (
  (λ e. cc),
  (
    (letter b'b' (omega arith) (omega arith), tt),
    (record { ascii = unfold IsAscii in omega arith; plain = refl }, tt),
  ),
)

both_sides :
    parse_filter two
    ≡ ok (conj (equals (codes "a") (codes "true")) (equals (codes "b") (codes "x and y")))
unfolding parse_filter parse_with split_and split_from take_bytes eq_ignore_case to_lower text_beq
    trim trim_start trim_end parse_attr_expr find_space parse_comp_value strip_quote unescape
both_sides = refl

escaped : parse_filter (codes "a eq \"O\\\"Brien\"") ≡ ok (equals (codes "a") (codes "O\"Brien"))
unfolding parse_filter parse_with split_and split_from take_bytes eq_ignore_case to_lower text_beq
    trim trim_start trim_end parse_attr_expr find_space parse_comp_value strip_quote unescape
escaped = refl

-- An escaped quote ends the quotes for the search of " and ".
split_inside : split_and (codes "a eq \"x\\\" and y\"") ≡ parts (codes "a eq \"x\\\"") (codes "y\"")
unfolding split_and split_from take_bytes eq_ignore_case to_lower text_beq
split_inside = refl
