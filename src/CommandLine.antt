-- ===== src/CommandLine.antt =====
-- tests/utils/commandline.c: the commands that are typed into the test programs. A string is the list of
-- its bytes before the NUL, and a callback acts on a state of type `S`.
pub mod Words
mod Examples
use galileom2m.Prelude.{
  ℕ, zero, suc, Bool, true, false, Option, none, some, List, [], ◌∷◌, ◌++◌, ◌==◌, ◌&&◌, ◌||◌, leb,
  bytes_eq, if◌then◌else◌, map,
}

-- `isspace`
unfoldable pub is_white : ℕ → Bool
is_white c = c == 32 || (leb 9 c && leb c 13)

-- The bytes before the first white space, and those from there on.
unfoldable pub first_word : List ℕ → List ℕ
unfolding is_white
first_word [] = []
first_word (c ∷ text) = let more = first_word text in if is_white c then [] else c ∷ more

unfoldable pub skip_word : List ℕ → List ℕ
unfolding is_white
skip_word [] = []
skip_word (c ∷ text) = let more = skip_word text in if is_white c then c ∷ text else more

unfoldable pub skip_white : List ℕ → List ℕ
unfolding is_white
skip_white [] = []
skip_white (c ∷ text) = let more = skip_white text in if is_white c then more else c ∷ text

unfoldable pub get_next_arg : List ℕ → List ℕ
unfolding skip_word skip_white
get_next_arg text = skip_white (skip_word text)

pub record Command (S : Type 0) : Type 0 where
  pub name : List ℕ
  pub short_desc : List ℕ
  pub long_desc : Option (List ℕ)
  pub callback : List ℕ → S → S

-- What is printed: a line of the overview, the description of one command, or the message that a
-- command is unknown.
pub data Printed : Type 0 where
  help_line : Printed
  command_line : List ℕ → List ℕ → Printed
  description : List ℕ → Printed
  unknown_command : Printed

abbrev pub help_command : List ℕ
help_command = b'h' ∷ b'e' ∷ b'l' ∷ b'p' ∷ []

-- `!strncmp(buffer, "help", length)`, for the first word of the buffer.
unfoldable pub is_prefix : List ℕ → List ℕ → Bool
is_prefix [] text = true
is_prefix (c ∷ word) [] = false
is_prefix (c ∷ word) (d ∷ text) = (c == d) && is_prefix word text

module _ {S : Type 0} where
  -- The loop of `prv_find_command` over the array, up to the name that is NULL.
  unfoldable pub search_command : List (Command S) → List ℕ → Option (Command S)
  search_command [] word = none
  search_command (c ∷ commands) word =
      if bytes_eq c.name word then some c else search_command commands word

  unfoldable pub find_command : List (Command S) → List ℕ → Option (Command S)
  unfolding search_command
  find_command commands [] = none
  find_command commands (c ∷ word) = search_command commands (c ∷ word)

  unfoldable pub display_help : List (Command S) → List ℕ → List Printed
  unfolding find_command first_word
  display_help commands text = elim (find_command commands (first_word text)) [
    | none ↦ help_line ∷ map (λ c. command_line c.name c.short_desc) commands
    | some c ↦ description (elim c.long_desc [ none ↦ c.short_desc | some long ↦ long ]) ∷ []
  ]

  -- What is done with the first word and what follows it: the state after the callback, and what is
  -- printed.
  unfoldable pub handle_word : List (Command S) → List ℕ → List ℕ → S → S × List Printed
  unfolding find_command display_help is_prefix
  handle_word commands word args s = elim (find_command commands word) [
    | some c ↦ (c.callback args s, [])
    | none ↦ (
      s,
      if is_prefix word help_command then display_help commands args else unknown_command ∷ [],
    )
  ]

  unfoldable pub handle_command : List (Command S) → List ℕ → S → S × List Printed
  unfolding handle_word first_word get_next_arg
  handle_command commands text s = handle_word commands (first_word text) (get_next_arg text) s
