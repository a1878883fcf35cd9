-- ===== src/Base/Json.antt =====
-- Values that cross a JSON boundary, after `JSON.parse` or before `JSON.stringify`.
use agentv.Base.Tests.{if◌then◌else◌, ◌==◌, string_eq, nat_eq}
use Prim.Native.Nat.{ℕ}
use Prim.Native.String.{String}
use mathlib.Core.Bool.{Bool, true, false}
use mathlib.Core.Option.{Option, none, some}
use mathlib.Core.Path.{◌≡◌, refl}
use native.Mathlib.Omega.{arith}
use package.text.Mathlib.TextEquality.{eq_iff}
use mathlib.Core.List.{List, [], ◌∷◌}

-- A number is an integer, `nat n` or `neg n` for -(n + 1), or it is `frac`, any other double.
mutual
  -- The own enumerable properties, in order; a key occurs once.
  pub data Fields : Type 0 where
    end : Fields
    field : String → Value → Fields → Fields

  pub data Value : Type 0 where
    bool : Bool → Value
    nat neg frac : ℕ → Value
    text : String → Value
    obj : Fields → Value
    arr : Items → Value
    null : Value

  pub data Items : Type 0 where
    nil : Items
    cons : Value → Items → Items

-- `value[key]`, with `none` for `undefined`
abbrev pub get : String → Fields → Option Value
get k end = none
get k (field j v fs) = if j == k then some v else get k fs

-- A value in a condition: `undefined`, `null`, `false`, `0` and `''` are false. `NaN` is no JSON.
abbrev pub truthy : Option Value → Bool
truthy none = false
truthy (some null) = false
truthy (some (bool b)) = b
truthy (some (nat n)) = if n == 0 then false else true
truthy (some (text s)) = if s == "" then false else true
truthy (some _) = true

-- `Object.keys`
abbrev pub keys : Fields → List String
keys end = []
keys (field k v fs) = k ∷ keys fs

abbrev pub to_list : Items → List Value
to_list nil = []
to_list (cons v vs) = v ∷ to_list vs

-- `{ ...fs, ...gs }`: a key of `gs` wins.
abbrev pub put : String → Value → Fields → Fields
put k v end = field k v end
put k v (field j w fs) = if j == k then field j v fs else field j w (put k v fs)

abbrev pub spread : Fields → Fields → Fields
spread fs end = fs
spread fs (field k v gs) = spread (put k v fs) gs

pub get-put :
    (j k : String) (v : Value) (fs : Fields)
    → get j (put k v fs) ≡ (if k == j then some v else get j fs)
get-put j k v end = refl
get-put j k v (field i w fs) = ground (arith, eq_iff i k, eq_iff i j, eq_iff k j, get-put j k v fs)
