-- ===== src/Console.antt =====
-- tests/server/lwm2mserver.c: the server_commands of the test server. `list`, which only prints, is left out of
-- the array of server_commands, and so are the texts that describe the server_commands. The NUL behind a string is
-- the byte behind the list.
pub mod Paths
mod Examples
use galileom2m.Prelude.{
  ℕ, zero, suc, ◌+◌, ◌-◌, ◌*◌, ◌%◌, ◌^◌, ◌<◌, Bool, true, false, Option, none, some, List, [], ◌∷◌,
  ◌++◌, ltb, leb, ◌==◌, ◌&&◌, ◌||◌, if◌then◌else◌, length,
}
use galileom2m.Coap.{Coap}
use galileom2m.Context.{Run, ok, fault, ◌>>=◌, Context}
use galileom2m.Uri.{Uri, max_id, string_to_uri}
use galileom2m.Uri.Numbers.{decimal_value}
use galileom2m.Management.{Answers, dm_read, dm_write, dm_execute, dm_delete}
use galileom2m.Observe.Notify.{observe, observe_cancel}
use galileom2m.CommandLine.{first_word, skip_word, skip_white, get_next_arg, Command}

-- The digits at the start of a text.
unfoldable pub leading_digits : List ℕ → List ℕ
leading_digits [] = []
leading_digits (c ∷ text) =
    let more = leading_digits text in if leb b'0' c && leb c b'9' then c ∷ more else []

-- The digits as a `long`, which does not go beyond its range, and as an `int`.
unfoldable pub int_of_digits : Bool → List ℕ → Option ℕ
unfolding decimal_value
int_of_digits negative [] = none
int_of_digits negative (c ∷ digits) =
    let n = decimal_value 0 (c ∷ digits) in
    let top = if negative then 2 ^ 63 else 2 ^ 63 - 1 in
    let long = if ltb top n then top else n in
    some ((if negative then 2 ^ 64 - long else long) % 2 ^ 32)

unfoldable pub scan_signed : List ℕ → Option ℕ
unfolding int_of_digits leading_digits
scan_signed [] = none
scan_signed (c ∷ text) =
    if c == b'-'
    then int_of_digits true (leading_digits text)
    else if c == b'+'
    then int_of_digits false (leading_digits text)
    else int_of_digits false (leading_digits (c ∷ text))

-- `sscanf(buffer, "%d", &value)`; `none` is any result but 1.
unfoldable pub scan_int : List ℕ → Option ℕ
unfolding scan_signed skip_white
scan_int text = scan_signed (skip_white text)

unfoldable pub in_id_range : Option ℕ → Option ℕ
in_id_range none = none
in_id_range (some value) = if leb (2 ^ 31) value || ltb max_id value then none else some value

unfoldable pub read_id : List ℕ → Option ℕ
unfolding scan_int in_id_range
read_id text = in_id_range (scan_int text)

-- What a handler prints: "Syntax error !", or "OK" and "Error" by the result.
pub data Reply : Type 0 where
  syntax_error : Reply
  result : ℕ → Reply

-- What `malloc` and the clock answer to `lwm2m_observe`.
pub record ObserveAnswers : Type 0 where
  pub observation : Option ℕ
  pub transaction : Option ℕ
  pub message : Bool
  pub allocated : Bool
  pub located : Bool
  pub now : Option ℕ

byte_behind : List ℕ → ℕ
byte_behind [] = 0
byte_behind (c ∷ text) = c

-- `stack` is what stands in `uri`, which no handler initialises; `result_callback` is the address of
-- `prv_result_callback`, and the user data is NULL.
module _ (coap : Coap) (answers : Answers) (observe_answers : ObserveAnswers) (stack : Uri)
    (result_callback : ℕ) where
  open coap use {Packet}

  abbrev Replied : Type 0
  Replied = Run (Context Packet × Reply)

  refuse : Context Packet → Replied
  refuse c = ok (c, syntax_error)

  reply_with : Context Packet × ℕ → Replied
  reply_with (c, status) = ok (c, result status)

  reported_to : Option (ℕ × ℕ)
  reported_to = some (result_callback, 0)

  -- From the first argument on: the client's id and the second argument.
  unfoldable pub with_target : List ℕ → Context Packet → (ℕ → List ℕ → Replied) → Replied
  unfolding refuse read_id
  with_target text c handle = elim (read_id text) [
    | none ↦ refuse c
    | some id ↦ elim (get_next_arg text) [ [] ↦ refuse c | b ∷ rest ↦ handle id (b ∷ rest) ]
  ]

  -- `lwm2m_stringToUri`, and what is reply_with with the uri.
  unfoldable pub with_uri : List ℕ → ℕ → Context Packet → (Uri → Replied) → Replied
  unfolding refuse
  with_uri text behind c handle =
      let (used, uri) = string_to_uri text behind stack in
      if used == 0 then refuse c else handle uri

  unfoldable pub read_client : List ℕ → Context Packet → Replied
  unfolding with_target with_uri reply_with reported_to
  read_client text c =
      with_target text c (λ id arg.
        with_uri arg 0 c (λ uri. dm_read coap answers c id uri reported_to >>= reply_with))

  unfoldable pub write_client : List ℕ → Context Packet → Replied
  unfolding with_target with_uri reply_with reported_to refuse byte_behind
  write_client text c = with_target text c (λ id arg. elim (get_next_arg arg) [
    | [] ↦ refuse c
    | b ∷ bytes ↦
        with_uri (first_word arg) (byte_behind (skip_word arg)) c
          (λ uri. dm_write coap answers c id uri (b ∷ bytes) reported_to >>= reply_with)
  ])

  -- Without data the buffer is NULL.
  data_of : List ℕ → Option (List ℕ)
  data_of [] = none
  data_of (b ∷ bytes) = some (b ∷ bytes)

  unfoldable pub exec_client : List ℕ → Context Packet → Replied
  unfolding with_target with_uri reply_with reported_to data_of byte_behind
  exec_client text c = with_target text c (λ id arg.
      with_uri (first_word arg) (byte_behind (skip_word arg)) c (λ uri.
        dm_execute coap answers c id uri (data_of (get_next_arg arg)) reported_to >>= reply_with))

  unfoldable pub delete_client : List ℕ → Context Packet → Replied
  unfolding with_target with_uri reply_with reported_to
  delete_client text c = with_target text c (λ id arg.
      with_uri arg 0 c (λ uri. dm_delete coap answers c id uri reported_to >>= reply_with))

  unfoldable pub observe_client : List ℕ → Context Packet → Replied
  unfolding with_target with_uri reply_with
  observe_client text c =
      let a = observe_answers in
      with_target text c (λ id arg. with_uri arg 0 c (λ uri.
        observe coap a.observation a.transaction a.message a.allocated a.located a.now c id uri
          result_callback 0
        >>= reply_with))

  unfoldable pub cancel_client : List ℕ → Context Packet → Replied
  unfolding with_target with_uri reply_with
  cancel_client text c =
      with_target text c
        (λ id arg. with_uri arg 0 c (λ uri. reply_with (observe_cancel coap c id uri)))

  -- The state of the program: the context, what was printed, the newest first, and `g_quit`.
  pub record Session : Type 0 where
    pub context : Context Packet
    pub replies : List Reply
    pub quit : Bool

  -- A handler as a callback of the command line; a program that has crashed stays so.
  unfoldable pub as_callback :
      (List ℕ → Context Packet → Replied) → List ℕ → Run Session → Run Session
  as_callback handler text s = do
    session ← s
    (c, reply) ← handler text session.context
    ok (record session { context = c; replies = reply ∷ session.replies })

  unfoldable pub on_quit : List ℕ → Run Session → Run Session
  on_quit text s = do session ← s; ok (record session { quit = true })

  unfoldable pub on_list : List ℕ → Run Session → Run Session
  on_list text s = s

  unfoldable pub command : List ℕ → (List ℕ → Run Session → Run Session) → Command (Run Session)
  command name run = record { name = name; short_desc = []; long_desc = none; callback = run }

  unfoldable pub server_commands : List (Command (Run Session))
  unfolding command as_callback on_list on_quit
  server_commands =
      command (b'l' ∷ b'i' ∷ b's' ∷ b't' ∷ []) on_list
      ∷ command (b'r' ∷ b'e' ∷ b'a' ∷ b'd' ∷ []) (as_callback read_client)
      ∷ command (b'w' ∷ b'r' ∷ b'i' ∷ b't' ∷ b'e' ∷ []) (as_callback write_client)
      ∷ command (b'e' ∷ b'x' ∷ b'e' ∷ b'c' ∷ []) (as_callback exec_client)
      ∷ command (b'd' ∷ b'e' ∷ b'l' ∷ []) (as_callback delete_client)
      ∷ command (b'o' ∷ b'b' ∷ b's' ∷ b'e' ∷ b'r' ∷ b'v' ∷ b'e' ∷ []) (as_callback observe_client)
      ∷ command (b'c' ∷ b'a' ∷ b'n' ∷ b'c' ∷ b'e' ∷ b'l' ∷ []) (as_callback cancel_client)
      ∷ command (b'q' ∷ b'u' ∷ b'i' ∷ b't' ∷ []) on_quit
      ∷ []
