-- ===== src/Resources/Applications.antt =====
-- tests/client/applications.c: the object of the applications that a server can download, run and kill.
-- The outcomes of `malloc`, `pthread_create`, `kill`, `vfork` and `system` are arguments. The NUL that
-- `exec_run_fork` and `strtok` write into the arguments of the command is not modelled.
pub mod Setup
pub mod Life
use galileom2m.Prelude.{
  ℕ, zero, suc, ◌+◌, ◌-◌, ◌^◌, ◌≡◌, ◌<◌, ◌≤◌, ◌≢◌, refl, Bool, true, false, Option, none, some,
  List, [], ◌∷◌, ◌++◌, ltb, leb, ◌==◌, not, ◌&&◌, if◌then◌else◌, length, take, drop, arith, is_some,
}
use galileom2m.Context.{Run, ok, fault, ◌>>=◌, minus_one}
use galileom2m.Resources.{
  ResAccType, read, read_write, exec, ResType, string, int, Cell, word, Cells, update, load_word,
  store_word, load_string, Resource, ObjectConfig,
}

-- The addresses of the fields of an entry of `applicationsDB`.
pub record Application : Type 0 where
  pub name : ℕ
  pub args : ℕ
  pub version : ℕ
  pub url : ℕ
  pub state : ℕ
  pub error : ℕ
  pub pid : ℕ

abbrev pub nof_applications : ℕ
nof_applications = 20

abbrev pub idle : ℕ
idle = 0

abbrev pub downloading : ℕ
downloading = 1

abbrev pub downloaded : ℕ
downloaded = 2

abbrev pub running : ℕ
running = 3

abbrev pub error_state : ℕ
error_state = 4

abbrev pub error_running : ℕ
error_running = 6

abbrev pub invalid_url : ℕ
invalid_url = 7

-- The first place where `needle` stands in the text, as the text from there on (`strstr`).
starts_with : List ℕ → List ℕ → Bool
starts_with [] text = true
starts_with (c ∷ needle) [] = false
starts_with (c ∷ needle) (d ∷ text) = (c == d) && starts_with needle text

unfoldable pub strstr : List ℕ → List ℕ → Option (List ℕ)
unfolding starts_with
strstr [] needle = if starts_with needle [] then some [] else none
strstr (c ∷ text) needle =
    let later = strstr text needle in
    if starts_with needle (c ∷ text) then some (c ∷ text) else later

-- "tftp://"
abbrev pub tftp_prefix : List ℕ
tftp_prefix = b't' ∷ b'f' ∷ b't' ∷ b'p' ∷ b':' ∷ b'/' ∷ b'/' ∷ []

-- `true` is URL_TFTP.
unfoldable pub get_url_proto : List ℕ → Bool
unfolding strstr
get_url_proto url = is_some (strstr url tftp_prefix)

-- `URL + strlen("tftp://")` is in the string once "tftp://" is somewhere in it. `none` is NULL.
unfoldable pub tftp_host : Bool → List ℕ → Option (List ℕ)
unfolding strstr
tftp_host allocated url =
    let host = drop 7 url in
    elim (strstr host (b'/' ∷ [])) [
      | none ↦ none
      | some slash ↦ if allocated then some (take (length host - length slash) host) else none
    ]

-- Without a slash the pointer is NULL + 1, which is not NULL, and is read.
unfoldable pub tftp_file : Bool → List ℕ → Run (Option (List ℕ))
unfolding strstr
tftp_file allocated url = elim (strstr (drop 7 url) (b'/' ∷ [])) [
  | none ↦ fault
  | some slash ↦ ok (if allocated then some (drop 1 slash) else none)
]

-- What the system answers to `exec_download`: memory for the host, the file and the command object, and
-- the result of `pthread_create`.
pub record Downloading : Type 0 where
  pub for_host : Bool
  pub for_file : Bool
  pub for_object : Bool
  pub created : ℕ

-- The result, and the command that the thread will run.
unfoldable pub download_cmd : Downloading → List ℕ → ℕ × Option (List ℕ)
download_cmd answers cmd =
    if answers.for_object
    then (answers.created, if answers.created == 0 then some cmd else none)
    else (minus_one, none)

-- "tftp -g -r %s %s", cut off at `cmdlen`, which is larger.
unfoldable pub tftp_command : List ℕ → List ℕ → List ℕ
tftp_command file host =
    b't'
    ∷ b'f'
    ∷ b't'
    ∷ b'p'
    ∷ b' '
    ∷ b'-'
    ∷ b'g'
    ∷ b' '
    ∷ b'-'
    ∷ b'r'
    ∷ b' '
    ∷ (file ++ (b' ' ∷ host))

-- `applicationsDB[instanceId]`; an index outside of the array is a fault.
unfoldable pub application_at : (ℕ → Application) → ℕ → Run Application
application_at layout i = if ltb i nof_applications then ok (layout i) else fault

-- The result, the memory, and the command that was handed to a thread.
unfoldable pub download_from :
    Downloading → Application → Cells → List ℕ → Run (ℕ × Cells × Option (List ℕ))
unfolding get_url_proto tftp_host tftp_file download_cmd tftp_command
download_from answers app m url =
    if get_url_proto url
    then (do
      file ← tftp_file answers.for_file url
      elim (tftp_host answers.for_host url) [
        | none ↦ ok (minus_one, m, none)
        | some host ↦ elim file [
          | none ↦ ok (minus_one, m, none)
          | some name ↦ do
            m1 ← store_word m app.state downloading
            m2 ← store_word m1 app.error 0
            (let (result, started) = download_cmd answers (tftp_command name host) in
                ok (result, m2, started))
        ]
      ])
    else ok (minus_one, m, none)

unfoldable pub exec_download :
    Downloading → (ℕ → Application) → ℕ → Cells → Run (ℕ × Cells × Option (List ℕ))
unfolding application_at download_from
exec_download answers layout instance_id m = do
  app ← application_at layout instance_id
  url ← load_string m app.url
  download_from answers app m url

-- What the thread does once `system` has returned `ret`.
unfoldable pub download_thread : Application → ℕ → Cells → Run Cells
download_thread app ret m = do
  m1 ← store_word m app.error ret
  if ret == 0 then store_word m1 app.state downloaded else (do
    m2 ← store_word m1 app.state error_state
    if ret == 1 then store_word m2 app.error invalid_url else ok m2)

-- A pid that is positive as an `int`.
abbrev positive : ℕ → Bool
positive pid = ltb 0 pid && ltb pid (2 ^ 31)

-- `forked` is what `exec_run_fork` returns.
unfoldable pub exec_run : Bool → ℕ → (ℕ → Application) → ℕ → Cells → Run (ℕ × Cells)
unfolding application_at
exec_run allocated forked layout instance_id m = do
  app ← application_at layout instance_id
  pid ← load_word m app.pid
  if not (pid == 0)
      then ok (minus_one, m)
      else if not allocated
      then ok (minus_one, m)
      else if positive forked
      then (do m1 ← store_word m app.state running; m2 ← store_word m1 app.pid forked; ok (0, m2))
      else (do
        m1 ← store_word m app.state error_state
        m2 ← store_word m1 app.error error_running
        ok (minus_one, m2))

-- `killed` is whether `kill` returned 0.
unfoldable pub exec_kill : Bool → (ℕ → Application) → ℕ → Cells → Run (ℕ × Cells)
unfolding application_at
exec_kill killed layout instance_id m = do
  app ← application_at layout instance_id
  pid ← load_word m app.pid
  if positive pid && killed
      then (do m1 ← store_word m app.pid 0; m2 ← store_word m1 app.state idle; ok (0, m2))
      else ok (minus_one, m)

unfoldable pub exec_check : (ℕ → Bool) → (ℕ → Application) → ℕ → Cells → Run Bool
unfolding application_at
exec_check alive layout instance_id m = do
  app ← application_at layout instance_id
  pid ← load_word m app.pid
  ok (positive pid && alive pid)

-- A round of the loop; `alive` is whether `kill` with the signal 0 returns 0.
unfoldable pub declare_dead : Application → Cells → Run Cells
declare_dead app m = do
  m1 ← store_word m app.state error_state
  store_word m1 app.error error_running

unfoldable pub update_application : (ℕ → Bool) → (ℕ → Application) → ℕ → Cells → Run Cells
unfolding exec_check declare_dead
update_application alive layout i m = do
  state ← load_word m (layout i).state
  if state == running
      then (do
        checked ← exec_check alive layout i m
        if checked then ok m else declare_dead (layout i) m)
      else ok m

-- The loop from index `i` on, `left` rounds.
unfoldable pub update_loop : (ℕ → Bool) → (ℕ → Application) → ℕ → ℕ → Cells → Run Cells
unfolding update_application
update_loop alive layout i zero m = ok m
update_loop alive layout i (suc left) m =
    update_application alive layout i m >>= update_loop alive layout (i + 1) left

unfoldable pub applications_update : (ℕ → Bool) → (ℕ → Application) → Cells → Run Cells
unfolding update_loop
applications_update alive layout m = update_loop alive layout 0 nof_applications m
