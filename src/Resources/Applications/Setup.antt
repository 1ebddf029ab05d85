-- ===== src/Resources/Applications/Setup.antt =====
-- tests/client/applications.c: entering the applications in a table of resources.
use galileom2m.Prelude.{ℕ, zero, suc, ◌+◌, ◌≡◌, refl, Bool, true, Option, none, some}
use galileom2m.Context.{Run, ok, fault, ◌>>=◌}
use galileom2m.Resources.{string, int, Cells, ObjectConfig}
use galileom2m.Resources.Build.{
  new_object_config, object_add_resource_read, object_add_resource_read_write,
  object_add_resource_exec, object_resource_string_size, object_set_string_value_instance,
  object_set_int_value_instance,
}
use galileom2m.Resources.Applications.{Application, nof_applications}

abbrev pub applications_nof_resourceid : ℕ
applications_nof_resourceid = 9

-- The functions that the resources Download, Run and Kill execute.
pub record Commands : Type 0 where
  pub download : ℕ → Cells → Run (ℕ × Cells)
  pub run : ℕ → Cells → Run (ℕ × Cells)
  pub kill : ℕ → Cells → Run (ℕ × Cells)

unfoldable pub add_application_resources : Commands → ObjectConfig → ObjectConfig
add_application_resources commands config =
    let c0 = (object_add_resource_read_write config (some "Name") 0 string).0 in
    let c1 = (object_resource_string_size c0 0 64).0 in
    let c2 = (object_add_resource_read_write c1 (some "Version") 1 string).0 in
    let c3 = (object_resource_string_size c2 1 64).0 in
    let c4 = (object_add_resource_read_write c3 (some "URL") 2 string).0 in
    let c5 = (object_resource_string_size c4 2 64).0 in
    let c6 = (object_add_resource_exec c5 (some "Download") 3 (some commands.download)).0 in
    let c7 = (object_add_resource_read_write c6 (some "Args") 4 string).0 in
    let c8 = (object_resource_string_size c7 4 64).0 in
    let c9 = (object_add_resource_exec c8 (some "Run") 5 (some commands.run)).0 in
    let c10 = (object_add_resource_exec c9 (some "Kill") 6 (some commands.kill)).0 in
    let c11 = (object_add_resource_read c10 (some "State") 7 int).0 in
    (object_add_resource_read c11 (some "Error Code") 8 int).0

unfoldable pub set_application : Application → ℕ → ObjectConfig → Run ObjectConfig
set_application app j config = do
  (c0, _) ← object_set_string_value_instance config 0 j app.name
  (c1, _) ← object_set_string_value_instance c0 1 j app.version
  (c2, _) ← object_set_string_value_instance c1 2 j app.url
  (c3, _) ← object_set_string_value_instance c2 4 j app.args
  (c4, _) ← object_set_int_value_instance c3 7 j app.state
  (c5, _) ← object_set_int_value_instance c4 8 j app.error
  ok c5

-- The loop from index `j` on, `left` rounds.
unfoldable pub set_applications : (ℕ → Application) → ℕ → ℕ → ObjectConfig → Run ObjectConfig
unfolding set_application
set_applications layout j zero config = ok config
set_applications layout j (suc left) config =
    set_application (layout j) j config >>= set_applications layout (j + 1) left

unfoldable pub new_object_applications :
    Bool → Bool → Commands → (ℕ → Application) → Run (Option ObjectConfig)
unfolding add_application_resources set_applications
new_object_applications for_config for_table commands layout =
    elim (new_object_config for_config for_table applications_nof_resourceid) [
      | none ↦ ok none
      | some config ↦ do
        filled ←
            set_applications layout 0 nof_applications (add_application_resources commands config)
        ok (some filled)
    ]

-- Wherever the applications stand in memory, setting up their object writes outside of the array of
-- values: there are 20 of them, and the table has 10 instances.
new_object_applications_faults :
    (commands : Commands) (layout : ℕ → Application)
    → new_object_applications true true commands layout ≡ fault
unfolding new_object_applications new_object_config object_add_resource_read
    object_add_resource_read_write object_add_resource_exec object_resource_string_size
    object_set_string_value_instance object_set_int_value_instance
new_object_applications_faults commands layout = refl
