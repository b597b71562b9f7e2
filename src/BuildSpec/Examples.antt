-- ===== src/BuildSpec/Examples.antt =====
-- A flow with a test before its build (src/codebuild/buildspec-generator.service.ts).
use otto_handler.Prelude.{◌≡◌, refl, false, String, List, [], ◌∷◌, none, some}
use otto_handler.BuildSpec.Types.{Node}
use otto_handler.BuildSpec.Generator.{generate_build_spec}
use otto_handler.BuildSpec.Generator.Groups.{
  of_group, specification, generate_build_spec-specification,
}

abbrev node_of : (block_type group_type : String) → Node
node_of block_type group_type = record {
  block_type = block_type;
  group_type = group_type;
  version = none;
  package_manager = some "pnpm";
  update_package_list = false;
  install_packages = none;
  environment_variables = [];
  load_from_file = none;
  clean_install = false;
  production_only = false;
  config_file = none;
  mode = none;
  base_path = none;
  output_dir = none;
  script_name = some "build";
  custom_commands = none;
  working_directory = none;
  coverage = false;
  test_dir = none;
  reporter = none;
  timeout = none;
  recursive = false;
  browsers = none;
  test_commands = some ("make check" ∷ []);
  channel = none;
  webhook_url_env = none;
  message_template = none;
  recipients = none;
  subject = none;
}

abbrev flow : List Node
flow =
    node_of "test_custom" "utility"
    ∷ node_of "build_custom" "build"
    ∷ node_of "test_jest" "test"
    ∷ node_of "install_module_node" "build"
    ∷ []

builds :
    of_group "build" flow
    ≡ node_of "build_custom" "build" ∷ node_of "install_module_node" "build" ∷ []
builds = refl

generate_build_spec-specification_example : generate_build_spec flow ≡ specification flow
generate_build_spec-specification_example = generate_build_spec-specification flow
