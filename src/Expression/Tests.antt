-- ===== src/Expression/Tests.antt =====
-- An expression with two fields and an index.
use tc397tools.Prelude.{some, [], ◌∷◌, ◌≡◌, refl, codes, All, bytes_eq}
use tc397tools.Prelude.Stoull.{stoull, digit_value, read_digits}
use tc397tools.Expression.{
  ParsedExpression, parse_uint, split_index, split_dots, take_parts, parse_expression,
}
use tc397tools.Expression.Parts.{join, IsPart, parse_expression-parts}

abbrev motor_speed : ParsedExpression
motor_speed = record {
  base_expression = codes "motor.state.speed";
  root_name = codes "motor";
  fields = codes "state" ∷ codes "speed" ∷ [];
  index = some 1;
}

parse_expression-parts_example :
    (join (motor_speed.root_name ∷ motor_speed.fields) ≡ codes "motor.state.speed")
    × All IsPart (motor_speed.root_name ∷ motor_speed.fields)
unfolding parse_expression split_index split_dots take_parts parse_uint stoull digit_value
    read_digits bytes_eq
parse_expression-parts_example =
    parse_expression-parts (codes "motor.state.speed[1]") motor_speed refl
