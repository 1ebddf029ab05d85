-- ===== src/CommandLine/Words.antt =====
-- tests/utils/commandline.c: words and what stands behind them.
use galileom2m.Prelude.{
  ℕ, ◌≡◌, refl, ap, true, false, none, some, List, [], ◌∷◌, ◌++◌, All, if◌then◌else◌,
}
use galileom2m.CommandLine.{
  is_white, first_word, skip_word, skip_white, get_next_arg, Command, search_command, find_command,
  handle_word, handle_command, is_prefix, help_command, display_help, unknown_command,
}

-- A word without white space, and an argument that does not begin with any.
abbrev pub Plain : List ℕ → Type 0
Plain word = All (λ c. is_white c ≡ false) word

abbrev pub Starts : List ℕ → Type 0
Starts [] = Unit {0}
Starts (c ∷ text) = is_white c ≡ false

abbrev pub White : List ℕ → Type 0
White gap = All (λ c. is_white c ≡ true) gap

-- What ends a word: nothing more, or white space.
abbrev pub Ends : List ℕ → Type 0
Ends [] = Unit {0}
Ends (c ∷ text) = is_white c ≡ true

pub first_word-append :
    (word rest : List ℕ) → Plain word → Ends rest → first_word (word ++ rest) ≡ word
unfolding first_word
first_word-append [] [] plain ends = refl
first_word-append [] (c ∷ rest) plain ends = rw ends
first_word-append (c ∷ word) rest plain ends =
    rw plain.0 (ap (◌∷◌ c) (first_word-append word rest plain.1 ends))

pub skip_word-append :
    (word rest : List ℕ) → Plain word → Ends rest → skip_word (word ++ rest) ≡ rest
unfolding skip_word
skip_word-append [] [] plain ends = refl
skip_word-append [] (c ∷ rest) plain ends = rw ends
skip_word-append (c ∷ word) rest plain ends = rw plain.0 (skip_word-append word rest plain.1 ends)

pub skip_white-append :
    (gap args : List ℕ) → White gap → Starts args → skip_white (gap ++ args) ≡ args
unfolding skip_white
skip_white-append [] [] white starts = refl
skip_white-append [] (c ∷ args) white starts = rw starts
skip_white-append (c ∷ gap) args white starts =
    rw white.0 (skip_white-append gap args white.1 starts)

-- A gap is white space, and there is some unless nothing follows.
pub record Gap (gap args : List ℕ) : Type 0 where
  pub white : White gap
  pub ends : Ends (gap ++ args)
  pub starts : Starts args

pub get_next_arg-append :
    (word gap args : List ℕ)
    → Plain word
    → Gap gap args
    → get_next_arg (word ++ (gap ++ args)) ≡ args
unfolding get_next_arg
get_next_arg-append word gap args plain g =
    rw (skip_word-append word (gap ++ args) plain g.ends)
      (skip_white-append gap args g.white g.starts)

handle_word-named :
    {S : Type 0} (commands : List (Command S)) (c : ℕ) (word args : List ℕ) (s : S)
    → handle_word commands (c ∷ word) args s ≡ (elim (search_command commands (c ∷ word)) [
      | some found ↦ (found.callback args s, [])
      | none ↦ (
        s,
        if is_prefix (c ∷ word) help_command
            then display_help commands args
            else unknown_command ∷ [],
      )
    ])
unfolding handle_word find_command
handle_word-named commands c word args s = refl

-- A line of a word without white space and of arguments behind a gap: if the word is the name of a
-- command, the first command of that name is called with the arguments and nothing is printed;
-- otherwise the state stays, and the help on the arguments is printed if the word is a beginning of
-- "help", and the message that the command is unknown if not.
pub handle_command_lem :
    {S : Type 0} (commands : List (Command S)) (c : ℕ) (word gap args : List ℕ) (s : S)
    → Plain (c ∷ word)
    → Gap gap args
    → handle_command commands ((c ∷ word) ++ (gap ++ args)) s
      ≡ (elim (search_command commands (c ∷ word)) [
        | some found ↦ (found.callback args s, [])
        | none ↦ (
          s,
          if is_prefix (c ∷ word) help_command
              then display_help commands args
              else unknown_command ∷ [],
        )
      ])
unfolding handle_command
handle_command_lem commands c word gap args s plain g =
    rw
      (
        first_word-append (c ∷ word) (gap ++ args) plain g.ends,
        get_next_arg-append (c ∷ word) gap args plain g,
      )
      (handle_word-named commands c word args s)
