-- ===== src/Ps/Transcendental.antt =====
-- The operators of `pdf/ps/operations.go` that compute with `float64` alone, whatever the type of
-- the number that is popped.
use unidoc.Prelude.{◌&&◌, if◌then◌else◌}
use unidoc.Prelude.Int.{pos}
use unidoc.Ps.Object.{real, range_check, undefined_result, Float64}
use unidoc.Ps.Stack.{M, ◌>>=◌, fail, push, pop_number_as_float64}

module _ {F : Type 0} ⦃fl : Float64 F⦄ where
  -- A ratio by zero is 90 or 270 degrees.
  unfoldable pub op_atan : M F (Unit {0})
  op_atan = do
    den ← pop_number_as_float64
    num ← pop_number_as_float64
    if fl.eq den (fl.of_int (pos 0))
        then push (real (fl.of_int (if fl.lt num (fl.of_int (pos 0)) then pos 270 else pos 90)))
        else push (real (fl.div (fl.mul (fl.atan (fl.div num den)) (fl.of_int (pos 180))) fl.pi))

  unfoldable pub radians : F → F
  radians angle = fl.div (fl.mul angle fl.pi) (fl.of_int (pos 180))

  unfoldable pub op_cos : M F (Unit {0})
  op_cos = do angle ← pop_number_as_float64; push (real (fl.cos (radians angle)))

  unfoldable pub op_sin : M F (Unit {0})
  op_sin = do angle ← pop_number_as_float64; push (real (fl.sin (radians angle)))

  unfoldable pub op_exp : M F (Unit {0})
  op_exp = do
    exponent ← pop_number_as_float64
    base ← pop_number_as_float64
    if fl.lt (fl.abs exponent) (fl.of_int (pos 1)) && fl.lt base (fl.of_int (pos 0))
        then fail undefined_result
        else push (real (fl.pow base exponent))

  unfoldable pub op_log : M F (Unit {0})
  op_log = do val ← pop_number_as_float64; push (real (fl.log10 val))

  unfoldable pub op_ln : M F (Unit {0})
  op_ln = do val ← pop_number_as_float64; push (real (fl.ln val))

  unfoldable pub op_sqrt : M F (Unit {0})
  op_sqrt = do
    val ← pop_number_as_float64
    if fl.lt val (fl.of_int (pos 0)) then fail range_check else push (real (fl.sqrt val))
