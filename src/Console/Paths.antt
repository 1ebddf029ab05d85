-- ===== src/Console/Paths.antt =====
-- tests/server/lwm2mserver.c: what a typed line with a client number and a path asks for.
use galileom2m.Prelude.{
  ℕ, suc, ◌+◌, ◌<◌, ◌≤◌, ◌≡◌, ◌∙◌, refl, sym, ap, bit_or, false, some, List, [], ◌∷◌, ◌++◌, arith,
  length, bytes_eq,
}
use galileom2m.Coap.{Coap}
use galileom2m.Context.{Run, ok, ◌>>=◌, >>=-assoc, Context}
use galileom2m.Uri.{Uri, string_to_uri}
use galileom2m.Uri.Numbers.{decimal, decimal_value, Digits, decimal-Digits, length-decimal}
use galileom2m.Uri.Text.{
  begins, decimal_value-decimal, path_text, string_to_uri-path_text, string_to_uri-leading_slash,
}
use galileom2m.Management.{Answers, dm_read}
use galileom2m.CommandLine.{is_white, skip_white, search_command, handle_command}
use galileom2m.CommandLine.Words.{Plain, Ends, Gap, get_next_arg-append, handle_command_lem}
use galileom2m.Console.{
  leading_digits, int_of_digits, scan_signed, scan_int, in_id_range, read_id, Reply, result,
  ObserveAnswers, reply_with, reported_to, with_target, with_uri, read_client, Session, as_callback,
  server_commands, command,
}

Plain-Digits : (text : List ℕ) → Digits text → Plain text
unfolding is_white
Plain-Digits [] d = tt
Plain-Digits (c ∷ text) d = (ground arith, Plain-Digits text d.1)

leading_digits-append :
    (text rest : List ℕ) → Digits text → Ends rest → leading_digits (text ++ rest) ≡ text
unfolding leading_digits is_white
leading_digits-append [] [] d ends = refl
leading_digits-append [] (c ∷ rest) d ends = ground arith
leading_digits-append (c ∷ text) rest d ends =
    ground (arith, leading_digits-append text rest d.1 ends)

skip_white-digit : (c : ℕ) (text : List ℕ) → b'0' ≤ c → c ≤ b'9' → skip_white (c ∷ text) ≡ c ∷ text
unfolding skip_white is_white
skip_white-digit c text low high = ground arith

scan_signed-digit :
    (c : ℕ) (text : List ℕ)
    → b'0' ≤ c
    → scan_signed (c ∷ text) ≡ int_of_digits false (leading_digits (c ∷ text))
unfolding scan_signed
scan_signed-digit c text low = ground arith

int_of_digits-small :
    (text : List ℕ) (n : ℕ)
    → 1 ≤ length text
    → decimal_value 0 text ≡ n
    → n < 65536
    → int_of_digits false text ≡ some n
unfolding int_of_digits
int_of_digits-small [] n full e h = absurd (omega arith)
int_of_digits-small (c ∷ text) n full e h = rw e (ground arith)

in_id_range-small : (n : ℕ) → n < 65536 → in_id_range (some n) ≡ some n
unfolding in_id_range
in_id_range-small n h = ground arith

-- A client number is read up to the white space behind it.
read_id-decimal :
    (n : ℕ) (rest : List ℕ) → n < 65536 → Ends rest → read_id (decimal n ++ rest) ≡ some n
unfolding read_id scan_int
read_id-decimal n rest h ends =
    let (c, more, shape, low, high) =
      begins (decimal n) rest (decimal-Digits n) (length-decimal n).0 in
    let digits : leading_digits (c ∷ more) ≡ decimal n =
      ap leading_digits (sym shape)
      ∙ leading_digits-append (decimal n) rest (decimal-Digits n) ends in
    let scanned : scan_signed (c ∷ more) ≡ some n =
      scan_signed-digit c more low
      ∙ rw digits
          (int_of_digits-small (decimal n) n (length-decimal n).0 (decimal_value-decimal n h) h) in
    rw (shape, skip_white-digit c more low high, scanned) (in_id_range-small n h)

-- "read"
abbrev pub read_word : List ℕ
read_word = b'r' ∷ b'e' ∷ b'a' ∷ b'd' ∷ []

module _ (coap : Coap) (answers : Answers) (observe_answers : ObserveAnswers) (stack : Uri)
    (result_callback : ℕ) where
  open coap use {Packet}

  -- A line with a client number and a text that is read as an uri.
  read_client-text :
      (n : ℕ) (gap : List ℕ) (b : ℕ) (arg : List ℕ) (used : ℕ) (uri : Uri) (c : Context Packet)
      → n < 65536
      → Gap gap (b ∷ arg)
      → string_to_uri (b ∷ arg) 0 stack ≡ (suc used, uri)
      → read_client coap answers observe_answers stack result_callback
          (decimal n ++ (gap ++ (b ∷ arg)))
          c
        ≡ (dm_read coap answers c n uri (some (result_callback, 0)) >>= λ r. ok (r.0, result r.1))
  unfolding read_client with_target with_uri reply_with reported_to
  read_client-text n gap b arg used uri c h g parsed = ground (
    arith,
    read_id-decimal n (gap ++ (b ∷ arg)) h g.ends,
    get_next_arg-append (decimal n) gap (b ∷ arg) (Plain-Digits (decimal n) (decimal-Digits n)) g,
    parsed,
  )

  -- What is left of the session when the read has been made.
  abbrev pub after_read :
      Session coap answers observe_answers stack result_callback
      → ℕ
      → Uri
      → Run (Session coap answers observe_answers stack result_callback)
  after_read s n uri = do
    (c, status) ← dm_read coap answers s.context n uri (some (result_callback, 0))
    ok (record s { context = c; replies = result status ∷ s.replies })

  -- The command "read" with a client number and a text that is read as an uri.
  handle_command-text :
      (n : ℕ) (gap gap' : List ℕ) (b : ℕ) (arg : List ℕ) (used : ℕ) (uri : Uri)
      (s : Session coap answers observe_answers stack result_callback)
      → n < 65536
      → Gap gap (decimal n ++ (gap' ++ (b ∷ arg)))
      → Gap gap' (b ∷ arg)
      → string_to_uri (b ∷ arg) 0 stack ≡ (suc used, uri)
      → handle_command
          (server_commands coap answers observe_answers stack result_callback)
          (read_word ++ (gap ++ (decimal n ++ (gap' ++ (b ∷ arg)))))
          (ok s)
        ≡ (after_read s n uri, [])
  unfolding server_commands command as_callback search_command bytes_eq is_white
  handle_command-text n gap gap' b arg used uri s h g g' parsed =
      handle_command_lem (server_commands coap answers observe_answers stack result_callback) b'r'
        (b'e' ∷ b'a' ∷ b'd' ∷ []) gap (decimal n ++ (gap' ++ (b ∷ arg))) (ok s)
        (refl, (refl, (refl, (refl, tt)))) g
      ∙ rw (read_client-text n gap' b arg used uri s.context h g' parsed) (
          ap (λ (r : Run (Session coap answers observe_answers stack result_callback)). (r, []))
            (>>=-assoc (dm_read coap answers s.context n uri (some (result_callback, 0)))
              (λ (r : Context Packet × ℕ). ok (r.0, result r.1))
              (λ (x : Context Packet × Reply).
                ok (record s { context = x.0; replies = x.1 ∷ s.replies }))))

  -- A typed line of "read", a client number below 65536, and the text o/i/r with no slash in front and
  -- instance and resource below 65535, with white space before the number and the text: the server
  -- asks that client for exactly this resource, with the result callback and whatever flags stood in
  -- the uri besides, replies with the outcome, and prints no help.
  pub handle_command-path_text :
      (n o i r : ℕ) (gap gap' : List ℕ)
      (s : Session coap answers observe_answers stack result_callback)
      → n < 65536
      → o < 65536
      → i < 65535
      → r < 65535
      → Gap gap (decimal n ++ (gap' ++ path_text o i r))
      → Gap gap' (path_text o i r)
      → handle_command
          (server_commands coap answers observe_answers stack result_callback)
          (read_word ++ (gap ++ (decimal n ++ (gap' ++ path_text o i r))))
          (ok s)
        ≡ (
          after_read s n (record {
            flag = bit_or (bit_or stack.flag 0x02) 0x01;
            object_id = o;
            instance_id = i;
            resource_id = r;
          }),
          [],
        )
  handle_command-path_text n o i r gap gap' s hn ho hi hr g g' =
      let (b, more, shape, low, high) =
        begins (decimal o) (b'/' ∷ (decimal i ++ (b'/' ∷ decimal r))) (decimal-Digits o)
          (length-decimal o).0 in
      let used : length (path_text o i r) ≡ suc (length more) = ap length shape in
      let parsed = string_to_uri-path_text o i r 0 stack ho hi hr (λ e. omega arith) in
      rw shape (
        handle_command-text n gap gap' b more (length more) _ s hn (rw shape at g) (rw shape at g')
          (rw (used, shape) at parsed))

  -- The same line with the slash in front that the help of the command shows: the server asks the
  -- client for resource i of instance o of object 0.
  pub handle_command-leading_slash :
      (n o i r : ℕ) (gap gap' : List ℕ)
      (s : Session coap answers observe_answers stack result_callback)
      → n < 65536
      → o < 65535
      → i < 65535
      → Gap gap (decimal n ++ (gap' ++ (b'/' ∷ path_text o i r)))
      → Gap gap' (b'/' ∷ path_text o i r)
      → handle_command
          (server_commands coap answers observe_answers stack result_callback)
          (read_word ++ (gap ++ (decimal n ++ (gap' ++ (b'/' ∷ path_text o i r)))))
          (ok s)
        ≡ (
          after_read s n (record {
            flag = bit_or (bit_or stack.flag 0x02) 0x01;
            object_id = 0;
            instance_id = o;
            resource_id = i;
          }),
          [],
        )
  handle_command-leading_slash n o i r gap gap' s hn ho hi g g' =
      let parsed = string_to_uri-leading_slash o i r 0 stack ho hi in
      let used : length (decimal o) + length (decimal i) + 3
          ≡ suc (length (decimal o) + length (decimal i) + 2) =
        omega arith in
      handle_command-text n gap gap' b'/' (path_text o i r) _ _ s hn g g' (rw used at parsed)
