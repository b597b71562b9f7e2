-- ===== src/BuildSpec/Commands.antt =====
-- The commands of one node (the private methods of src/codebuild/buildspec-generator.service.ts).
use otto_handler.Prelude.{
  Bool, true, false, String, List, [], ◌∷◌, ◌++◌, map, Option, none, some, truthy, or_text, str_eq,
  if◌then◌else◌,
}
use otto_handler.Prelude.Text.{template}
use otto_handler.BuildSpec.Types.{Node, is_block, shown, differs, manager, join, texts}

abbrev when_text : Bool → String → String
when_text b s = if b then s else ""

abbrev when_list : Bool → List String → List String
when_list b ss = if b then ss else []

-- The text for one of the three package managers, or none for another one.
abbrev by_manager : String → (npm yarn pnpm : String) → String
by_manager m npm yarn pnpm =
    if str_eq m "npm"
    then npm
    else if str_eq m "yarn"
    then yarn
    else if str_eq m "pnpm"
    then pnpm
    else ""

abbrev is_apt : String → Bool
is_apt m = if str_eq m "apt" then true else str_eq m "apt-get"

install_os : String → List String → List String
install_os m [] = []
install_os m (p ∷ ps) =
    if is_apt m
    then template ("apt-get install -y " ∷ join " " (p ∷ ps) ∷ []) ∷ []
    else when_list (str_eq m "yum") (template ("yum install -y " ∷ join " " (p ∷ ps) ∷ []) ∷ [])

pub generate_os_package_commands : Node → List String
unfolding install_os
generate_os_package_commands node =
    let m = or_text node.package_manager "apt-get" in
    when_list node.update_package_list (
      if is_apt m
      then "apt-get update -y" ∷ []
      else when_list (str_eq m "yum") ("yum update -y" ∷ []))
    ++ install_os m (texts node.install_packages)

abbrev export : String × String → String
export (key, value) = template ("export " ∷ key ∷ "=\"" ∷ value ∷ "\"" ∷ [])

pub generate_environment_setup_commands : Node → List String
generate_environment_setup_commands node =
    map export node.environment_variables
    ++ when_list (truthy node.load_from_file)
        (template ("source " ∷ shown node.load_from_file ∷ []) ∷ [])

-- `if [ -f package.json ]; then echo "…"; …; else echo "…"; fi`
if_package : (doing command otherwise : String) → String
if_package doing command otherwise = template (
    "if [ -f package.json ]; then echo \"" ∷ doing ∷ "...\"; " ∷ command
    ∷ "; else echo \"No package.json found, skipping " ∷ otherwise ∷ "\"; fi" ∷ [])

install_command : Node → String
install_command node =
    if node.clean_install
    then by_manager (manager node) "npm ci || npm install" "yarn install --frozen-lockfile"
        "pnpm install --frozen-lockfile"
    else if node.production_only
    then template (manager node ∷ " install --production" ∷ [])
    else template (manager node ∷ " install" ∷ [])

pub generate_install_packages_commands : Node → List String
unfolding if_package install_command
generate_install_packages_commands node =
    "echo \"=== Install Dependencies ===\""
    ∷ "pwd"
    ∷ "ls -la"
    ∷ "echo \"Checking for package.json...\""
    ∷ "[ -f package.json ] && cat package.json | head -20 || echo \"No package.json found\""
    ∷ if_package (template ("Installing dependencies with " ∷ manager node ∷ []))
        (install_command node) "dependency installation"
    ∷ []

pub generate_webpack_build_commands : Node → List String
unfolding if_package
generate_webpack_build_commands node =
    let configured =
      template ("webpack --config " ∷ shown node.config_file ∷ " --mode " ∷ shown node.mode ∷ []) in
    let usual = template ("webpack --mode " ∷ shown node.mode ∷ []) in
    let webpack = if differs node.config_file "webpack.config.js" then configured else usual in
    if_package "Running webpack build"
      (by_manager (manager node) (template ("npx " ∷ webpack ∷ []))
        (template ("yarn " ∷ webpack ∷ [])) (template ("pnpm exec " ∷ webpack ∷ [])))
      "webpack build"
    ∷ []

pub generate_vite_build_commands : Node → List String
unfolding if_package
generate_vite_build_commands node =
    let vite =
      by_manager (manager node) "npx vite build" "yarn vite build" "pnpm exec vite build" in
    let based = template ("VITE_BASE_PATH=" ∷ shown node.base_path ∷ " " ∷ vite ∷ []) in
    (if_package "Running vite build" (if differs node.base_path "/" then based else vite)
        "vite build"
      ∷ [])
    ++ when_list (differs node.output_dir "dist")
        (template ("mv " ∷ shown node.output_dir ∷ " dist" ∷ []) ∷ [])

-- `commands.map((cmd) => `cd ${directory} && ${cmd}`)`, in another directory than the current one
abbrev in_directory : Option String → List String → List String
in_directory directory commands =
    if differs directory "."
    then map (λ cmd. template ("cd " ∷ shown directory ∷ " && " ∷ cmd ∷ [])) commands
    else commands

pub generate_custom_build_commands : Node → List String
generate_custom_build_commands node = in_directory node.working_directory (
    when_list (truthy node.script_name)
      (template (manager node ∷ " run " ∷ shown node.script_name ∷ []) ∷ [])
    ++ texts node.custom_commands)

abbrev configured_test : String → String → Node → List String
configured_test command usual node =
    template (
      command
      ∷ when_text (differs node.config_file usual)
          (template (" --config " ∷ shown node.config_file ∷ []))
      ∷ when_text node.coverage " --coverage"
      ∷ [])
    ∷ []

pub generate_mocha_test_commands : Node → List String
generate_mocha_test_commands node =
    template (
      "npx mocha"
      ∷ when_text (truthy node.test_dir) (template (" " ∷ shown node.test_dir ∷ []))
      ∷ when_text (truthy node.reporter) (template (" --reporter " ∷ shown node.reporter ∷ []))
      ∷ when_text (truthy node.timeout) (template (" --timeout " ∷ shown node.timeout ∷ []))
      ∷ when_text node.recursive " --recursive"
      ∷ [])
    ∷ []

abbrev projects : Option (List String) → String
projects none = ""
projects (some names) = template (" --project " ∷ join "," names ∷ [])

pub generate_playwright_test_commands : Node → List String
generate_playwright_test_commands node =
    template (
      "npx playwright test"
      ∷ when_text (differs node.config_file "playwright.config.ts")
          (template (" --config " ∷ shown node.config_file ∷ []))
      ∷ projects node.browsers
      ∷ [])
    ∷ []

pub generate_custom_test_commands : Node → List String
generate_custom_test_commands node = in_directory node.working_directory (texts node.test_commands)

abbrev message_of : Node → String
message_of node = or_text node.message_template "Build completed successfully!"

pub generate_slack_notification_commands : Node → List String
generate_slack_notification_commands node =
    when_list (if truthy node.channel then truthy node.webhook_url_env else false) (
      template (
        "curl -X POST -H 'Content-type: application/json' --data '{\"channel\":\""
        ∷ shown node.channel
        ∷ "\",\"text\":\""
        ∷ message_of node
        ∷ "\"}' $"
        ∷ shown node.webhook_url_env
        ∷ [])
      ∷ [])

pub generate_email_notification_commands : Node → List String
generate_email_notification_commands node =
    when_list (if truthy node.recipients then truthy node.subject else false) (
      template (
        "echo \""
        ∷ message_of node
        ∷ "\" | mail -s \""
        ∷ shown node.subject
        ∷ "\" "
        ∷ shown node.recipients
        ∷ [])
      ∷ [])

pub generate_pre_build_commands : Node → List String
generate_pre_build_commands node =
    if is_block "os_package" node
    then generate_os_package_commands node
    else when_list (is_block "environment_setup" node) (generate_environment_setup_commands node)

pub generate_build_commands : Node → List String
generate_build_commands node =
    if is_block "install_module_node" node
    then generate_install_packages_commands node
    else if is_block "build_webpack" node
    then generate_webpack_build_commands node
    else if is_block "build_vite" node
    then generate_vite_build_commands node
    else when_list (is_block "build_custom" node) (generate_custom_build_commands node)

pub generate_test_commands : Node → List String
generate_test_commands node =
    if is_block "test_jest" node
    then configured_test "npm run test" "jest.config.js" node
    else if is_block "test_vitest" node
    then configured_test "npx vitest run" "vitest.config.ts" node
    else if is_block "test_mocha" node
    then generate_mocha_test_commands node
    else if is_block "test_playwright" node
    then generate_playwright_test_commands node
    else when_list (is_block "test_custom" node) (generate_custom_test_commands node)

pub generate_notification_commands : Node → List String
generate_notification_commands node =
    if is_block "notification_slack" node
    then generate_slack_notification_commands node
    else when_list (is_block "notification_email" node) (generate_email_notification_commands node)
