-- ===== src/Manifests/Supplied.antt =====
-- What a template of pkg/manifests/manifests.go asks for, and what the code passes.
use Prim.Native.Char.{Char, code}
use cloudtty.Base.{
  ◌≡◌, String, ◌<>◌, Bool, true, false, ◌&&◌, ◌||◌, List, [], ◌∷◌, ◌++◌, nat_eq, leb, ◌==◌, ℕ,
}
use cloudtty.Base.Dict.{Dict}
use cloudtty.Cluster.{Value, resources, Fields}

-- Where the reader of a template stands: in its text, in an action between double braces, at the
-- second closing brace, or in a chain of field names of which it has read some and a part of the next.
pub data Place : Type 0 where
  outside inside closing : Place
  at_name : List String → String → Place

abbrev is : ℕ → Char → Bool
is n c = nat_eq (code c) n

abbrev is_letter : Char → Bool
is_letter c = (leb 65 (code c) && leb (code c) 90) || (leb 97 (code c) && leb (code c) 122)

-- The chains of field names that the actions read, as `.Resources.Limits`: each stands after a space
-- and a dot, and its names have a dot between them.
unfoldable pub chains : Place → String → List (List String)
chains place String.[] = []
chains (at_name names name) (String.◌∷◌ c s) = elim (is_letter c) [
  | true ↦ chains (at_name names (name <> String.◌∷◌ c "")) s
  | false ↦ elim (is 46 c) [
    | true ↦ chains (at_name (names ++ name ∷ []) "") s
    | false ↦
        (names ++ name ∷ []) ∷ elim (is 125 c) [ true ↦ chains closing s | false ↦ chains inside s ]
  ]
]
chains closing (String.◌∷◌ c s) = elim (is 125 c) [
  | true ↦ chains outside s
  | false ↦ chains inside s
]
chains outside (String.◌∷◌ c String.[]) = []
chains outside (String.◌∷◌ c (String.◌∷◌ d s)) = elim (is 123 c && is 123 d) [
  | true ↦ chains inside s
  | false ↦ chains outside (String.◌∷◌ d s)
]
chains inside (String.◌∷◌ c String.[]) = []
chains inside (String.◌∷◌ c (String.◌∷◌ d s)) = elim (is 125 c && is 125 d) [
  | true ↦ chains outside s
  | false ↦ elim (is 32 c && is 46 d) [
    | true ↦ chains (at_name [] "") s
    | false ↦ chains inside (String.◌∷◌ d s)
  ]
]

unfoldable pub chains_in : String → List (List String)
unfolding chains
chains_in template = chains outside template

-- `ResourceList` has the methods `Cpu` and `Memory`; what they return has no field that is read.
abbrev in_resource_list : List String → Bool
in_resource_list [] = true
in_resource_list (name ∷ []) = name == "Cpu" || name == "Memory"
in_resource_list _ = false

-- `ResourceSetting` has the fields `Requests` and `Limits`, and no other value has any.
abbrev in_value : Value → List String → Bool
in_value value [] = true
in_value (resources _) (name ∷ names) =
    (name == "Requests" || name == "Limits") && in_resource_list names
in_value _ _ = false

-- The chain leads from the structure to a value.
abbrev in_fields : Fields → List String → Bool
in_fields fields [] = false
in_fields [] (name ∷ names) = false
in_fields ((field, value) ∷ fields) (name ∷ names) =
    let rest = in_fields fields (name ∷ names) in
    elim (field == name) [ true ↦ in_value value names | false ↦ rest ]

abbrev all_supplied : Fields → List (List String) → Bool
all_supplied fields [] = true
all_supplied fields (names ∷ rest) = in_fields fields names && all_supplied fields rest

-- Every chain of field names in the template leads from the structure to a value.
abbrev pub is_supplied : String → Fields → Bool
is_supplied template fields = all_supplied fields (chains_in template)

abbrev is_read : String → List (List String) → Bool
is_read field [] = false
is_read field ([] ∷ rest) = is_read field rest
is_read field ((name ∷ _) ∷ rest) = name == field || is_read field rest

abbrev all_read : Fields → List (List String) → Bool
all_read [] read = true
all_read ((field, _) ∷ fields) read = is_read field read && all_read fields read

-- A chain in the template starts at each field of the structure.
abbrev pub is_used : String → Fields → Bool
is_used template fields = all_read fields (chains_in template)

-- The template reads nothing that the structure has not, and no field is passed in vain.
abbrev pub Matches : String → Fields → Type 0
Matches template fields = (is_supplied template fields ≡ true) × (is_used template fields ≡ true)
