-- ===== src/BuildSpec/Types.antt =====
-- A node of a flow (`CICDNodeData` of src/database/entities/pipeline.entity.ts), with the properties
-- that src/codebuild/buildspec-generator.service.ts reads, and the specification that it builds.
use otto_handler.Prelude.{
  Bool, true, false, String, List, [], ◌∷◌, Option, none, some, truthy, or_text, str_eq,
  if◌then◌else◌,
}
use otto_handler.Prelude.Text.{template}

-- A property of another type than the code expects is absent here, and so is a timeout of 0. The value
-- of an environment variable is its text, or the text of its `value` if it is an object.
pub record Node : Type 0 where
  pub block_type : String
  pub group_type : String
  pub version : Option String
  pub package_manager : Option String
  pub update_package_list : Bool
  pub install_packages : Option (List String)
  pub environment_variables : List (String × String)
  pub load_from_file : Option String
  pub clean_install : Bool
  pub production_only : Bool
  pub config_file : Option String
  pub mode : Option String
  pub base_path : Option String
  pub output_dir : Option String
  pub script_name : Option String
  pub custom_commands : Option (List String)
  pub working_directory : Option String
  pub coverage : Bool
  pub test_dir : Option String
  pub reporter : Option String
  pub timeout : Option String
  pub recursive : Bool
  pub browsers : Option (List String)
  pub test_commands : Option (List String)
  pub channel : Option String
  pub webhook_url_env : Option String
  pub message_template : Option String
  pub recipients : Option String
  pub subject : Option String

pub record BuildSpec : Type 0 where
  pub version : String
  pub pre_build : List String
  pub build : List String
  pub post_build : List String
  pub artifacts : List String

-- `node.blockType === type`
abbrev pub is_block : String → Node → Bool
is_block type node = str_eq node.block_type type

-- `${value}`
abbrev pub shown : Option String → String
shown none = "undefined"
shown (some s) = s

-- `value && value !== usual`
abbrev pub differs : Option String → String → Bool
differs value usual =
    if truthy value then if str_eq (shown value) usual then false else true else false

abbrev pub manager : Node → String
manager node = or_text node.package_manager "npm"

-- `parts.join(separator)`
pub join : String → List String → String
join separator [] = ""
join separator (s ∷ []) = s
join separator (s ∷ t ∷ ss) = template (s ∷ separator ∷ join separator (t ∷ ss) ∷ [])

abbrev pub texts : Option (List String) → List String
texts none = []
texts (some ss) = ss
