-- ===== src/Ssh/Forward.antt =====
-- The forward that packages/cli/src/runner.ts asks `ssh -L` for, and the hosts that it accepts.
use Prim.Native.Char.{Char}
use Prim.Native.String.{[], ◌∷◌, ◌++◌}
use hyperfixation_core.Prelude.{
  ℕ, String, true, false, [], ◌∷◌, ◌≡◌, refl, ap, ◌∙◌, arith, ◌==◌, split, split-append,
  split-whole, all_chars, all_chars_mono, is_not, eq_iff, ◌≢◌, inl, inr, Bool-cases,
}
use hyperfixation_core.Prelude.Decimal.{decimal, decimal_plain}
use hyperfixation_core.Ssh.{is_host_char, is_tunnel_host, is_ssh_host, host_parts, forward}

host_char_plain : (c : Char) → is_host_char c ≡ true → is_not ":" c ≡ true
unfolding is_host_char
host_char_plain c h = ground arith

host_char_no_at : (c : Char) → is_host_char c ≡ true → is_not "@" c ≡ true
unfolding is_host_char
host_char_no_at c h = ground arith

string_ne : (c : Char) (s : String) → ◌≢◌ {A = String} (c ∷ s) ""
string_ne c s e = cc

not_empty : (c : Char) (s : String) → ((c ∷ s) == "") ≡ false
not_empty c s = elim (Bool-cases ((c ∷ s) == "")) [
  | inl e ↦ absurd (string_ne c s ((eq_iff (c ∷ s) "").0 e))
  | inr e ↦ e
]

host_plain : (s : String) → is_tunnel_host s ≡ true → all_chars (is_not ":") s ≡ true
unfolding is_tunnel_host
host_plain s h = all_chars_mono is_host_char (is_not ":") host_char_plain s (ground arith)

pub split-forward :
    (local_port remote_port : ℕ) (host : String)
    → is_tunnel_host host ≡ true
    → split ":" (forward local_port host remote_port)
      ≡ decimal local_port ∷ host ∷ decimal remote_port ∷ []
unfolding forward
split-forward local_port remote_port host h =
    split-append ":" (decimal local_port) (host ++ (":" ∷ decimal remote_port))
      (decimal_plain local_port)
    ∙ ap (λ fields. decimal local_port ∷ fields)
        (split-append ":" host (decimal remote_port) (host_plain host h)
          ∙ ap (λ fields. host ∷ fields)
              (split-whole ":" (decimal remote_port) (decimal_plain remote_port)))

plain_host :
    (c : Char) (s : String)
    → is_host_char c ≡ true
    → all_chars is_host_char s ≡ true
    → host_parts (split "@" (c ∷ s)) ≡ true
unfolding host_parts is_tunnel_host all_chars
plain_host c s h k =
    let whole : all_chars is_host_char (c ∷ s) ≡ true = ground arith in
    rw
      (split-whole "@" (c ∷ s)
        (all_chars_mono is_host_char (is_not "@") host_char_no_at (c ∷ s) whole))
      (ground (arith, not_empty c s))

-- SSH_HOST accepts texts that `ssh` reads as an option: a dash and then any text of host characters.
pub option_is_accepted :
    (s : String) → all_chars is_host_char s ≡ true → is_ssh_host ("-" ∷ s) ≡ true
unfolding is_ssh_host is_host_char
option_is_accepted s h = plain_host "-" s refl h
