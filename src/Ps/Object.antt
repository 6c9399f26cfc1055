-- ===== src/Ps/Object.antt =====
-- The objects of `pdf/ps/object.go` and the errors of `pdf/ps/const.go`. A program is a list of
-- objects, so the two types stand in one block. The objects are pointers in Go, but nothing writes
-- through one after it is made, so they are values here.
use unidoc.Prelude.{ℕ, ◌≡◌, refl, Bool, List, ap, sym, ◌∙◌}
use unidoc.Prelude.Int.{ℤ}

-- What the calculator uses of `float64` and of the package `math`. It is a parameter of the model:
-- `F` is the type of the floating-point values.
pub record Float64 (F : Type 0) : Type 0 where
  pub of_int : ℤ → F
  pub to_int : F → ℤ
  pub half : F
  pub tolerance : F
  pub pi : F
  pub neg : F → F
  pub add : F → F → F
  pub sub : F → F → F
  pub mul : F → F → F
  pub div : F → F → F
  pub eq : F → F → Bool
  pub lt : F → F → Bool
  pub abs : F → F
  pub ceil : F → F
  pub floor : F → F
  pub sqrt : F → F
  pub sin : F → F
  pub cos : F → F
  pub atan : F → F
  pub pow : F → F → F
  pub log10 : F → F
  pub ln : F → F

mutual
  pub data PsObject (F : Type 0) : Type 0 where
    integer : ℤ → PsObject F
    real : F → PsObject F
    boolean : Bool → PsObject F
    program : PsProgram F → PsObject F
    operand : List ℕ → PsObject F

  pub data PsProgram (F : Type 0) : Type 0 where
    nil : PsProgram F
    cons : PsObject F → PsProgram F → PsProgram F

pub data PsError : Type 0 where
  stack_underflow stack_overflow type_check range_check unsupported_operand : PsError
  undefined_result : PsError

-- `PSProgram.Append`
unfoldable pub append_object : {F : Type 0} → PsProgram F → PsObject F → PsProgram F
append_object nil o = cons o nil
append_object (cons p ps) o = cons p (append_object ps o)

-- `Duplicate` of each type of object. That of a program appends the copies to a fresh program.
unfoldable mutual
  pub duplicate : {F : Type 0} → PsObject F → PsObject F
  duplicate (integer n) = integer n
  duplicate (real x) = real x
  duplicate (boolean b) = boolean b
  duplicate (program p) = program (duplicate_onto nil p)
  duplicate (operand s) = operand s

  -- the loop of `PSProgram.Duplicate`, with `prog2` first
  pub duplicate_onto : {F : Type 0} → PsProgram F → PsProgram F → PsProgram F
  duplicate_onto acc nil = acc
  duplicate_onto acc (cons o p) = duplicate_onto (append_object acc (duplicate o)) p

unfoldable pub concat : {F : Type 0} → PsProgram F → PsProgram F → PsProgram F
concat nil q = q
concat (cons o p) q = cons o (concat p q)

pub concat-nil : {F : Type 0} (p : PsProgram F) → concat p nil ≡ p
unfolding concat
concat-nil nil = refl
concat-nil (cons o p) = ap (cons o) (concat-nil p)

pub concat-append_object :
    {F : Type 0} (p : PsProgram F) (o : PsObject F) (q : PsProgram F)
    → concat (append_object p o) q ≡ concat p (cons o q)
unfolding concat append_object
concat-append_object nil o q = refl
concat-append_object (cons x p) o q = ap (cons x) (concat-append_object p o q)

mutual
  unfolding duplicate concat

  duplicate_same : {F : Type 0} (o : PsObject F) → duplicate o ≡ o
  duplicate_same (integer n) = refl
  duplicate_same (real x) = refl
  duplicate_same (boolean b) = refl
  duplicate_same (program p) = ap program (duplicate_onto_same p nil)
  duplicate_same (operand s) = refl

  duplicate_onto_same : {F : Type 0} (p acc : PsProgram F) → duplicate_onto acc p ≡ concat acc p
  duplicate_onto_same nil acc = sym (concat-nil acc)
  duplicate_onto_same (cons o p) acc =
      duplicate_onto_same p (append_object acc (duplicate o))
      ∙ (rw (duplicate_same o) (concat-append_object acc o p))

-- A duplicate is the object itself: since nothing writes through an object, a shared pointer and a
-- fresh copy cannot be told apart.
pub duplicate_lem : {F : Type 0} (o : PsObject F) → duplicate o ≡ o
duplicate_lem o = duplicate_same o
