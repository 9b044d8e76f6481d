-- ===== src/Ingest/Extract/Scripts.antt =====
-- `check_script_source` of ingest/extract/repo_extractors/validator.py: what a script may import and
-- call. The nodes of its syntax tree, in the order of `ast.walk`, are a parameter.
use uk_jamaat_directory.Prelude.{
  ◌==◌, nat_eq, String, Bool, ◌||◌, Option, none, some, List, [], ◌∷◌, ◌++◌, any, if◌then◌else◌,
}
use uk_jamaat_directory.Schedules.Parse.{Text, codes, same_text}
use uk_jamaat_directory.Ingest.Texts.{starts_with, dot, or_empty}

-- A node as the checks tell it apart: the names of an import, the module of an import from one, a
-- global or nonlocal declaration, and the call of a plain name.
pub data Node : Type 0 where
  import_names : List Text → Node
  import_from : Option Text → Node
  scope_declaration : Node
  call_of : Text → Node
  other_node : Node

-- `ast.parse` with `ast.walk`; none for a syntax error.
abbrev pub Parser : Type 0
Parser = Text → Option (List Node)

abbrev pub banned_imports : List String
banned_imports =
    "subprocess" ∷ "socket" ∷ "ssl" ∷ "requests" ∷ "httpx" ∷ "aiohttp" ∷ "urllib" ∷ "urllib3"
    ∷ "http" ∷ "http.client" ∷ "asyncio" ∷ "asyncio.subprocess" ∷ "multiprocessing" ∷ "os"
    ∷ "shutil" ∷ "pathlib" ∷ "glob" ∷ "tempfile" ∷ "ctypes" ∷ "ctypes.util" ∷ "importlib" ∷ "pickle"
    ∷ "marshal" ∷ "code" ∷ "codeop" ∷ "compile" ∷ "ast" ∷ "builtins" ∷ "open" ∷ []

abbrev pub allowed_modules : List String
allowed_modules =
    "uk_jamaat_directory.domain" ∷ "uk_jamaat_directory.ingest.extract.repo_extractors.contract"
    ∷ "uk_jamaat_directory.ingest.extract.repo_extractors.declarative"
    ∷ "uk_jamaat_directory.ingest.extract.helpers" ∷ []

abbrev pub allowed_stdlib : List String
allowed_stdlib =
    "__future__" ∷ "datetime" ∷ "zoneinfo" ∷ "re" ∷ "math" ∷ "decimal" ∷ "collections"
    ∷ "dataclasses" ∷ "typing" ∷ "abc" ∷ "enum" ∷ "copy" ∷ "itertools" ∷ "functools" ∷ "json"
    ∷ "hashlib" ∷ []

abbrev pub is_one_of : List String → Text → Bool
is_one_of names text = any (λ name. same_text (codes name) text) names

-- `module.split(".")[0]`
unfoldable pub resolve_module_name : Text → Text
resolve_module_name [] = []
resolve_module_name (c ∷ cs) =
    let rest = resolve_module_name cs in if c == dot then [] else c ∷ rest

abbrev pub is_known_module : Text → Bool
is_known_module name =
    is_one_of allowed_stdlib (resolve_module_name name)
    || any (λ front. starts_with (codes front) name) allowed_modules

-- The issue that one imported name raises.
unfoldable pub import_issue : String → Text → List Text
import_issue banned name =
    if is_one_of banned_imports (resolve_module_name name)
    then (codes banned ++ name) ∷ []
    else if is_known_module name
    then []
    else (codes "import not allowed: " ++ name) ∷ []

abbrev name_issues : List Text → List Text
name_issues [] = []
name_issues (name ∷ names) = import_issue "banned import: " name ++ name_issues names

unfoldable pub node_issues : Node → List Text
node_issues (Node.import_names names) = name_issues names
node_issues (Node.import_from module_name) =
    import_issue "banned import from: " (or_empty module_name)
node_issues Node.scope_declaration = codes "banned construct" ∷ []
node_issues (Node.call_of name) =
    if is_one_of ("eval" ∷ "exec" ∷ "compile" ∷ []) name
    then (codes "banned call: " ++ name) ∷ []
    else []
node_issues Node.other_node = []

unfoldable pub nodes_issues : List Node → List Text
nodes_issues [] = []
nodes_issues (node ∷ nodes) = node_issues node ++ nodes_issues nodes

abbrev tree_issues : Option (List Node) → List Text
tree_issues none = codes "syntax error" ∷ []
tree_issues (some nodes) = nodes_issues nodes

unfoldable pub check_script_source : Parser → Text → List Text
check_script_source parse source = tree_issues (parse source)
