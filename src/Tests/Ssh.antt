-- ===== src/Tests/Ssh.antt =====
-- Witnesses for the argument lists of `ssh`.
use hyperfixation_core.Prelude.{String, true, some, [], ◌∷◌, ◌++◌, map, ◌≡◌, refl, split, all_chars}
use hyperfixation_core.Ssh.{is_host_char, is_ssh_host, ssh_exec_argv, ssh_options, argv}
use hyperfixation_core.Ssh.Words.{read_shell, word, redirection, between, exec_reads_back}

is_box : is_ssh_host "root@box.example" ≡ true
unfolding is_ssh_host split all_chars is_host_char
is_box = refl

exec_reads_back_example :
    (remote : String) × ((ssh_exec_argv "root@box.example"
          ("echo" ∷ "it's; rm -rf /" ∷ [])
          (some "/tmp/a dump")
        ≡ argv ("-T" ∷ ssh_options ("root@box.example" ∷ remote ∷ [])))
      × (read_shell between remote
          ≡ some
              ("", map word ("echo" ∷ "it's; rm -rf /" ∷ []) ++ redirection (some "/tmp/a dump"))))
exec_reads_back_example =
    exec_reads_back "root@box.example" "echo" ("it's; rm -rf /" ∷ []) (some "/tmp/a dump") is_box

plain_name : all_chars is_host_char "Fother.conf" ≡ true
unfolding all_chars is_host_char
plain_name = refl
