-- ===== src/Store/Namespaces.antt =====
-- Namespaces: `_does_match` of libs/checkpoint/langgraph/store/memory/__init__.py, and
-- `_validate_namespace` of libs/checkpoint/langgraph/store/base/__init__.py for labels that are strings.
use langgraph_study.Prelude.{
  ℕ, zero, suc, String, Bool, true, false, ◌&&◌, ◌||◌, ◌≡◌, ◌↔◌, List, [], ◌∷◌, ◌++◌, length, all,
  nonempty, ltb, nat_eq, str_eq, eq_iff, if◌then◌else◌, arith,
}
use langgraph_study.Method.{Result, ok, err, value_error}
use langgraph_study.Table.{Eq}
use langgraph_study.Pregel.Task.{codes, str_leb}

abbrev pub Namespace : Type 0
Namespace = List String

abbrev pub namespace_eq : Namespace → Namespace → Bool
namespace_eq [] [] = true
namespace_eq (x ∷ xs) (y ∷ ys) = str_eq x y && namespace_eq xs ys
namespace_eq xs ys = false

pub namespace_eq_iff : (a b : Namespace) → (namespace_eq a b ≡ true) ↔ (a ≡ b)
namespace_eq_iff [] [] = ground arith
namespace_eq_iff [] (y ∷ ys) = ground arith
namespace_eq_iff (x ∷ xs) [] = ground arith
namespace_eq_iff (x ∷ xs) (y ∷ ys) = ground (arith, eq_iff x y, namespace_eq_iff xs ys)

instance abbrev pub namespace : Eq Namespace
namespace = record { beq = namespace_eq; beq_iff = namespace_eq_iff }

-- The keys of `put_ops`: the namespace and the key of an item
abbrev pub place_eq : Namespace × String → Namespace × String → Bool
place_eq (n, j) (m, k) = namespace_eq n m && str_eq j k

pub place_eq_iff : (a b : Namespace × String) → (place_eq a b ≡ true) ↔ (a ≡ b)
place_eq_iff (n, j) (m, k) = ground (arith, namespace_eq_iff n m, eq_iff j k)

instance abbrev pub place : Eq (Namespace × String)
place = record { beq = place_eq; beq_iff = place_eq_iff }

pub data MatchType : Type 0 where
  prefix suffix : MatchType

pub record MatchCondition : Type 0 where
  pub match_type : MatchType
  pub path : Namespace

-- Every label that has a counterpart is the same, or stands against a wildcard.
unfoldable pub labels_match : Namespace → Namespace → Bool
labels_match [] path = true
labels_match (k ∷ key) [] = true
labels_match (k ∷ key) (p ∷ path) = (str_eq p "*" || str_eq k p) && labels_match key path

abbrev pub reversed : Namespace → Namespace
reversed [] = []
reversed (x ∷ xs) = reversed xs ++ x ∷ []

abbrev pub matches_type : MatchType → Namespace → Namespace → Bool
matches_type prefix key path = labels_match key path
matches_type suffix key path = labels_match (reversed key) (reversed path)

unfoldable pub does_match : MatchCondition → Namespace → Bool
unfolding labels_match
does_match c key =
    if ltb (length key) (length c.path) then false else matches_type c.match_type key c.path

-- `ns[:n]`
abbrev pub take : ℕ → Namespace → Namespace
take zero ns = []
take (suc n) [] = []
take (suc n) (x ∷ xs) = x ∷ take n xs

-- Whether the namespace begins with the prefix.
abbrev pub has_prefix : Namespace → Namespace → Bool
has_prefix start ns =
    if ltb (length ns) (length start) then false else namespace_eq (take (length start) ns) start

-- `a <= b` of tuples of strings
unfoldable pub namespace_leb : Namespace → Namespace → Bool
namespace_leb [] b = true
namespace_leb (x ∷ a) [] = false
namespace_leb (x ∷ a) (y ∷ b) =
    let rest = namespace_leb a b in if str_eq x y then rest else str_leb (codes x) (codes y)

unfoldable pub insert_namespace : Namespace → List Namespace → List Namespace
insert_namespace n [] = n ∷ []
insert_namespace n (m ∷ ms) = if namespace_leb n m then n ∷ m ∷ ms else m ∷ insert_namespace n ms

-- `sorted(namespaces)`
unfoldable pub sort_namespaces : List Namespace → List Namespace
sort_namespaces [] = []
sort_namespaces (n ∷ ns) = insert_namespace n (sort_namespaces ns)

-- `ns in namespaces`
unfoldable pub is_listed : Namespace → List Namespace → Bool
is_listed ns [] = false
is_listed ns (n ∷ more) = namespace_eq n ns || is_listed ns more

-- The elements of the set of these
unfoldable pub distinct_namespaces : List Namespace → List Namespace
distinct_namespaces [] = []
distinct_namespaces (n ∷ ns) =
    let rest = distinct_namespaces ns in if is_listed n rest then rest else n ∷ rest

-- `c in label`, for one character
abbrev pub has_code : ℕ → List ℕ → Bool
has_code c [] = false
has_code c (x ∷ xs) = nat_eq x c || has_code c xs

-- 46 is the code of the period.
abbrev pub is_label : String → Bool
is_label label = if has_code 46 (codes label) then false else nonempty (codes label)

abbrev pub is_reserved : Namespace → Bool
is_reserved [] = false
is_reserved (root ∷ labels) = str_eq root "langgraph"

-- `InvalidNamespaceError` is a `ValueError`.
unfoldable pub validate_namespace : Namespace → Result (Unit {0})
validate_namespace ns =
    if nonempty ns && all is_label ns
    then if is_reserved ns then err value_error else ok tt
    else err value_error
