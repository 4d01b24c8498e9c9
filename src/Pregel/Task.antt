-- ===== src/Pregel/Task.antt =====
-- `WritesProtocol`, `PregelTaskWrites` and `task_path_str` of libs/langgraph/langgraph/pregel/
-- _algo.py, and Python's stable `sorted` by such a string. A string is the list of its code points
-- here, which is how Python compares strings.
use Prim.Native.Nat.{◌/◌, ◌%◌}
use Prim.Native.Char.{code}
use langgraph_study.Prelude.{
  ℕ, zero, suc, ◌+◌, ◌-◌, String, Bool, true, false, List, [], ◌∷◌, ◌++◌, ltb, nat_eq, length,
  if◌then◌else◌,
}
use langgraph_study.Values.{Value}

-- The code points of a text.
abbrev pub codes : String → List ℕ
codes String.[] = []
codes (String.◌∷◌ c s) = code c ∷ codes s

-- `tuple[str | int | tuple, ...]`
mutual
  pub data PathPart : Type 0 where
    text : List ℕ → PathPart
    index : ℕ → PathPart
    parts : TaskPath → PathPart

  pub data TaskPath : Type 0 where
    end : TaskPath
    part : PathPart → TaskPath → TaskPath

pub record PregelTaskWrites : Type 0 where
  pub path : TaskPath
  pub name : String
  pub writes : List (String × Value)
  pub triggers : List String

-- The decimal digits of a number, on fuel: a number has fewer digits than its successor.
digits_from : ℕ → ℕ → List ℕ → List ℕ
digits_from zero n acc = acc
digits_from (suc f) n acc =
    let rest = digits_from f (n / 10) ((48 + n % 10) ∷ acc) in if nat_eq n 0 then acc else rest

zeros : ℕ → List ℕ → List ℕ
zeros zero acc = acc
zeros (suc n) acc = 48 ∷ zeros n acc

-- `f"{n:010d}"`
unfoldable pub pad_ten : ℕ → List ℕ
unfolding digits_from zeros
pad_ten n = let digits = digits_from (suc n) n [] in zeros (10 - length digits) digits

unfoldable mutual
  unfolding pad_ten

  pub task_path_str : PathPart → List ℕ
  task_path_str (text s) = s
  task_path_str (index n) = pad_ten n
  task_path_str (parts end) = 126 ∷ []
  task_path_str (parts (part p ps)) = 126 ∷ (task_path_str p ++ join_rest ps)

  -- `", ".join(...)` of what follows the first part
  pub join_rest : TaskPath → List ℕ
  join_rest end = []
  join_rest (part p ps) = 44 ∷ 32 ∷ (task_path_str p ++ join_rest ps)

-- `t.path[:3]`
unfoldable pub first_parts : ℕ → TaskPath → TaskPath
first_parts zero ps = end
first_parts (suc n) end = end
first_parts (suc n) (part p ps) = part p (first_parts n ps)

-- The key by which tasks are sorted.
unfoldable pub sort_key : PregelTaskWrites → List ℕ
unfolding task_path_str first_parts
sort_key t = task_path_str (parts (first_parts 3 t.path))

-- `a <= b` of strings
unfoldable pub str_leb : List ℕ → List ℕ → Bool
str_leb [] t = true
str_leb (a ∷ s) [] = false
str_leb (a ∷ s) (b ∷ t) =
    let rest = str_leb s t in if ltb a b then true else if ltb b a then false else rest

-- `sorted(tasks, key=...)`, which is stable
unfoldable pub insert_task : PregelTaskWrites → List PregelTaskWrites → List PregelTaskWrites
insert_task t [] = t ∷ []
insert_task t (u ∷ us) =
    if str_leb (sort_key t) (sort_key u) then t ∷ u ∷ us else u ∷ insert_task t us

unfoldable pub sort_tasks : List PregelTaskWrites → List PregelTaskWrites
sort_tasks [] = []
sort_tasks (t ∷ ts) = insert_task t (sort_tasks ts)
