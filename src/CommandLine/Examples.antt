-- ===== src/CommandLine/Examples.antt =====
-- Lines for the command line: a command, and what is taken for "help".
use galileom2m.Prelude.{ℕ, ◌+◌, ◌≡◌, refl, none, List, [], ◌∷◌, length, bytes_eq}
use galileom2m.CommandLine.{Command, help_line, unknown_command, command_line, handle_command}

-- "add", which counts the bytes of its arguments.
abbrev counting : List (Command ℕ)
counting =
    record {
      name = b'a' ∷ b'd' ∷ b'd' ∷ [];
      short_desc = b'A' ∷ [];
      long_desc = none;
      callback = λ args n. n + length args;
    }
    ∷ []

added : handle_command counting (b'a' ∷ b'd' ∷ b'd' ∷ 32 ∷ 32 ∷ b'x' ∷ b'y' ∷ []) 5 ≡ (7, [])
unfolding handle_command bytes_eq
added = refl

-- An empty line and "h" are a beginning of "help".
empty_line :
    handle_command counting [] 5
    ≡ (5, help_line ∷ command_line (b'a' ∷ b'd' ∷ b'd' ∷ []) (b'A' ∷ []) ∷ [])
unfolding handle_command
empty_line = refl

one_letter :
    handle_command counting (b'h' ∷ []) 5
    ≡ (5, help_line ∷ command_line (b'a' ∷ b'd' ∷ b'd' ∷ []) (b'A' ∷ []) ∷ [])
unfolding handle_command bytes_eq
one_letter = refl

unknown_line : handle_command counting (b'x' ∷ []) 5 ≡ (5, unknown_command ∷ [])
unfolding handle_command bytes_eq
unknown_line = refl
