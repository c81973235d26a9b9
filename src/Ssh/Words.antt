-- ===== src/Ssh/Words.antt =====
-- How a POSIX shell reads the word that packages/cli/src/runner.ts hands to `ssh`.
use Prim.Native.Char.{Char, code}
use Prim.Native.String.{[], ◌∷◌}
use text.Mathlib.TextEquality.{Char-path}
use hyperfixation_core.Prelude.{
  String, true, false, Option, none, some, List, [], ◌∷◌, ◌++◌, map, ◌≡◌, refl, ap, ◌∙◌, sym,
  if◌then◌else◌, eqb, eqb→eq, Bool-cases, inl, inr,
}
use hyperfixation_core.Ssh.{
  shell_quote, quoted_rest, remote_word, ssh_exec_argv, is_ssh_host, argv, ssh_options,
}

-- The part of the shell's language (POSIX.1, Shell Command Language, 2.2 and 2.7) that is quoted
-- words, blanks and one redirection; whatever else stands outside quotes is not read at all.
pub data Token : Type 0 where
  word : String → Token
  input_from : Token

pub data Place : Type 0 where
  between inside quoted escaped : Place

-- The text that continues the word that is open, and the tokens that follow it.
abbrev pub Reading : Type 0
Reading = Option (String × List Token)

abbrev push_char : Char → Reading → Reading
push_char c none = none
push_char c (some (w, ts)) = some (c ∷ w, ts)

-- A word that starts here.
abbrev starts : Reading → Reading
starts none = none
starts (some (w, ts)) = some ("", word w ∷ ts)

abbrev redirects : Reading → Reading
redirects none = none
redirects (some (w, ts)) = some ("", input_from ∷ ts)

abbrev outside : Char → Reading → Reading → Reading → Reading → Reading
outside c after_blank after_quote after_escape after_less =
    if eqb (code c) 32
    then after_blank
    else if eqb (code c) 39
    then after_quote
    else if eqb (code c) 92
    then after_escape
    else if eqb (code c) 60
    then after_less
    else none

-- The shell's reader.
pub read_shell : Place → String → Reading
read_shell between [] = some ("", [])
read_shell inside [] = some ("", [])
read_shell quoted [] = none
read_shell escaped [] = none
read_shell between (c ∷ s) =
    outside c (read_shell between s) (starts (read_shell quoted s)) (starts (read_shell escaped s))
      (redirects (read_shell between s))
read_shell inside (c ∷ s) =
    outside c (read_shell between s) (read_shell quoted s) (read_shell escaped s)
      (redirects (read_shell between s))
read_shell quoted (c ∷ s) =
    if eqb (code c) 39 then read_shell inside s else push_char c (read_shell quoted s)
read_shell escaped (c ∷ s) = push_char c (read_shell inside s)

quoted_rest-quote :
    (c : Char) (w rest : String)
    → eqb (code c) 39 ≡ true
    → quoted_rest (c ∷ w) rest ≡ "'" ∷ "\\" ∷ "'" ∷ "'" ∷ quoted_rest w rest
unfolding quoted_rest
quoted_rest-quote c w rest e = rw e refl

quoted_rest-plain :
    (c : Char) (w rest : String)
    → eqb (code c) 39 ≡ false
    → quoted_rest (c ∷ w) rest ≡ c ∷ quoted_rest w rest
unfolding quoted_rest
quoted_rest-plain c w rest e = rw e refl

-- '\'' closes the quotes, reads a quote and opens them again.
read_shell-quote :
    (s : String)
    → read_shell quoted ("'" ∷ "\\" ∷ "'" ∷ "'" ∷ s) ≡ push_char "'" (read_shell quoted s)
unfolding read_shell
read_shell-quote s = refl

read_shell-plain :
    (c : Char) (s : String)
    → eqb (code c) 39 ≡ false
    → read_shell quoted (c ∷ s) ≡ push_char c (read_shell quoted s)
unfolding read_shell
read_shell-plain c s e = rw e refl

read_quoted :
    (w rest : String) (ts : List Token)
    → read_shell inside rest ≡ some ("", ts)
    → read_shell quoted (quoted_rest w rest) ≡ some (w, ts)
unfolding read_shell quoted_rest
read_quoted [] rest ts h = h
read_quoted (c ∷ w) rest ts h = elim (Bool-cases (eqb (code c) 39)) [
  | inl e ↦
      ap (read_shell quoted) (quoted_rest-quote c w rest e)
      ∙ (read_shell-quote (quoted_rest w rest)
          ∙ (ap (push_char "'") (read_quoted w rest ts h)
              ∙ ap (λ d. some (d ∷ w, ts)) (sym (Char-path c "'" (eqb→eq (code c) 39 e)))))
  | inr e ↦
      ap (read_shell quoted) (quoted_rest-plain c w rest e)
      ∙ (read_shell-plain c (quoted_rest w rest) e ∙ ap (push_char c) (read_quoted w rest ts h))
]

read_words :
    (w : String) (ws : List String) (rest : String) (ts : List Token)
    → read_shell inside rest ≡ some ("", ts)
    → read_shell between (shell_quote (w ∷ ws) rest) ≡ some ("", map word (w ∷ ws) ++ ts)
unfolding read_shell shell_quote
read_words w [] rest ts h = ap starts (read_quoted w rest ts h)
read_words w (v ∷ ws) rest ts h = ap starts (
    read_quoted w (" " ∷ shell_quote (v ∷ ws) rest) (map word (v ∷ ws) ++ ts)
      (read_words v ws rest ts h))

abbrev pub redirection : Option String → List Token
redirection none = []
redirection (some file) = input_from ∷ word file ∷ []

remote_word_read :
    (w : String) (ws : List String) (file : Option String)
    → read_shell between (remote_word (w ∷ ws) file)
      ≡ some ("", map word (w ∷ ws) ++ redirection file)
unfolding remote_word read_shell
remote_word_read w ws none = read_words w ws "" [] refl
remote_word_read w ws (some file) =
    read_words w ws (" " ∷ "<" ∷ " " ∷ shell_quote (file ∷ []) "") (redirection (some file))
      (ap redirects (read_words file [] "" [] refl))

-- For an accepted host, `ssh` is run with a last argument that the remote shell reads as exactly the
-- words of a command that is not empty, and a redirection from the file where there is one:
-- whatever characters these have, none of them stands outside quotes.
pub exec_reads_back :
    (host w : String) (ws : List String) (file : Option String)
    → is_ssh_host host ≡ true
    → (remote : String) × ((ssh_exec_argv host (w ∷ ws) file
          ≡ argv ("-T" ∷ ssh_options (host ∷ remote ∷ [])))
        × (read_shell between remote ≡ some ("", map word (w ∷ ws) ++ redirection file)))
unfolding ssh_exec_argv
exec_reads_back host w ws file h =
    (remote_word (w ∷ ws) file, (rw h refl, remote_word_read w ws file))
