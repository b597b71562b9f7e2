-- ===== src/BuildSpec/Dockerfile.antt =====
-- The function `generateDockerfileScript` of src/codebuild/dockerfile-generator.ts.
use otto_handler.Prelude.{String, List, [], ◌∷◌, ◌++◌, Option, truthy, str_eq, if◌then◌else◌}
use otto_handler.Prelude.Text.{template}
use otto_handler.BuildSpec.Types.{join, shown}

-- What one of the three package managers needs, and nothing for another one.
abbrev by_manager : String → (npm yarn pnpm : List String) → List String
by_manager package_manager npm yarn pnpm =
    if str_eq package_manager "npm"
    then npm
    else if str_eq package_manager "yarn"
    then yarn
    else if str_eq package_manager "pnpm"
    then pnpm
    else []

dockerfile_lines : String → String → Option String → List String
dockerfile_lines node_version package_manager build_command =
    (template ("FROM node:" ∷ node_version ∷ "-alpine" ∷ [])
      ∷ "WORKDIR /app"
      ∷ "COPY package*.json ./"
      ∷ [])
    ++ (by_manager package_manager [] ("COPY yarn.lock* ./" ∷ []) ("COPY pnpm-lock.yaml* ./" ∷ [])
        ++ (by_manager package_manager
              ("RUN if [ -f package.json ]; then npm ci --only=production || npm install --only=production; fi"
                ∷ [])
              ("RUN npm install -g yarn"
                ∷ "RUN if [ -f package.json ]; then yarn install --frozen-lockfile --production; fi"
                ∷ [])
              ("RUN npm install -g pnpm"
                ∷ "RUN if [ -f package.json ]; then pnpm install --frozen-lockfile --prod; fi" ∷ [])
            ++ (("COPY . ." ∷ [])
                ++ ((if truthy build_command
                      then template
                          ("RUN if [ -f package.json ]; then " ∷ shown build_command ∷ "; fi" ∷ [])
                        ∷ []
                      else [])
                    ++ (("EXPOSE 3000" ∷ [])
                        ++ by_manager package_manager ("CMD [\"npm\", \"start\"]" ∷ [])
                            ("CMD [\"yarn\", \"start\"]" ∷ [])
                            ("CMD [\"pnpm\", \"start\"]" ∷ []))))))

pub generate_dockerfile_script : String → String → Option String → String
unfolding dockerfile_lines
generate_dockerfile_script node_version package_manager build_command = template (
    "[ ! -f Dockerfile ] && echo \"Creating Dockerfile...\" && cat > Dockerfile << 'EODOCKERFILE'\n"
    ∷ join "\n" (dockerfile_lines node_version package_manager build_command)
    ∷ "\nEODOCKERFILE\n[ -f Dockerfile ] && echo \"Dockerfile created successfully\" || echo \"Using existing Dockerfile\""
    ∷ [])
