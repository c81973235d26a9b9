-- ===== src/Ssh.antt =====
-- packages/cli/src/runner.ts: the argument lists that `ssh` is run with. Spawning the process and
-- waiting for the forwarded port are not in the model.
pub mod Words
pub mod Forward
use Prim.Native.Char.{Char, code}
use Prim.Native.String.{[], ◌∷◌, ◌++◌}
use hyperfixation_core.Prelude.{
  ℕ, String, Bool, true, false, not, Option, none, some, List, [], ◌∷◌, ◌&&◌, ◌||◌, ◌==◌,
  if◌then◌else◌, leb, eqb, or_else, split, all_chars,
}
use hyperfixation_core.Prelude.Decimal.{decimal}

-- [A-Za-z0-9._-]
unfoldable pub is_host_char : Char → Bool
is_host_char c =
    (leb 65 (code c) && leb (code c) 90)
    || ((leb 97 (code c) && leb (code c) 122)
        || ((leb 48 (code c) && leb (code c) 57)
            || (eqb (code c) 46 || (eqb (code c) 95 || eqb (code c) 45))))

-- TUNNEL_HOST, /^[A-Za-z0-9._-]+$/.
unfoldable pub is_tunnel_host : String → Bool
is_tunnel_host s = not (s == "") && all_chars is_host_char s

-- One or two parts, since no part has an `@`.
unfoldable pub host_parts : List String → Bool
unfolding is_tunnel_host
host_parts (host ∷ []) = is_tunnel_host host
host_parts (user ∷ host ∷ []) = is_tunnel_host user && is_tunnel_host host
host_parts _ = false

-- SSH_HOST, /^[A-Za-z0-9._-]+(@[A-Za-z0-9._-]+)?$/.
unfoldable pub is_ssh_host : String → Bool
unfolding host_parts
is_ssh_host s = host_parts (split "@" s)

-- One word with every quote in it as '\'' and then what follows the word.
unfoldable pub quoted_rest : String → String → String
quoted_rest [] rest = "'" ∷ rest
quoted_rest (c ∷ s) rest =
    let more = quoted_rest s rest in
    if eqb (code c) 39 then "'" ∷ "\\" ∷ "'" ∷ "'" ∷ more else c ∷ more

-- shellQuote, with what is put behind it.
unfoldable pub shell_quote : List String → String → String
unfolding quoted_rest
shell_quote [] rest = rest
shell_quote (word ∷ []) rest = "'" ∷ quoted_rest word rest
shell_quote (word ∷ next ∷ words) rest =
    "'" ∷ quoted_rest word (" " ∷ shell_quote (next ∷ words) rest)

pub data RunnerError : Type 0 where
  bad_ssh_host : String → RunnerError
  bad_tunnel_host : String → RunnerError

pub data Argv : Type 0 where
  argv : List String → Argv
  refused : RunnerError → Argv

-- The word that the remote shell is handed.
unfoldable pub remote_word : List String → Option String → String
unfolding shell_quote
remote_word command none = shell_quote command ""
remote_word command (some file) = shell_quote command (" " ∷ "<" ∷ " " ∷ shell_quote (file ∷ []) "")

abbrev pub ssh_options : List String → List String
ssh_options rest =
    "-o" ∷ "BatchMode=yes" ∷ "-o" ∷ "ControlMaster=no" ∷ "-o" ∷ "ControlPath=none" ∷ rest

unfoldable pub ssh_exec_argv : String → List String → Option String → Argv
ssh_exec_argv host command input_file =
    if is_ssh_host host
    then argv ("-T" ∷ ssh_options (host ∷ remote_word command input_file ∷ []))
    else refused (bad_ssh_host host)

unfoldable pub forward : ℕ → String → ℕ → String
forward local_port remote_host remote_port =
    decimal local_port ++ (":" ∷ (remote_host ++ (":" ∷ decimal remote_port)))

-- `remoteHost` defaults to TUNNEL_LOOPBACK.
unfoldable pub ssh_tunnel_argv : String → ℕ → ℕ → Option String → Argv
ssh_tunnel_argv host local_port remote_port given =
    let remote_host = or_else given "127.0.0.1" in
    if is_ssh_host host
    then if is_tunnel_host remote_host
      then argv (
          "-N" ∷ "-T" ∷ ssh_options ("-L" ∷ forward local_port remote_host remote_port ∷ host ∷ []))
      else refused (bad_tunnel_host remote_host)
    else refused (bad_ssh_host host)
