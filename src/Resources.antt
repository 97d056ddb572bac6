-- ===== src/Resources.antt =====
-- `ResourceSetting` of pkg/apis/cloudshell/v1alpha1/types.go, as the value of a command line flag.
use cloudtty.Base.{String, Option}
use cloudtty.Base.Dict.{Dict}
use cloudtty.Base.Result.{Error, Result, ok, err}

-- A quantity is the text of its JSON.
pub record Setting : Type 0 where
  pub limits : Dict
  pub requests : Dict

-- `json.Marshal` of a setting, and `json.Unmarshal` into one, which may have been written when there
-- is an error.
module _ (marshal : Setting → Result String)
    (unmarshal : String → Setting → Option Error × Setting) where
  -- The error is only printed.
  unfoldable pub string : Setting → String
  string r = elim (marshal r) [ ok text ↦ text | err _ ↦ "" ]

  unfoldable pub set : String → Setting → Option Error × Setting
  set value r = unmarshal value r

-- `Type`
abbrev pub type_name : String
type_name = "ResourceSetting"
