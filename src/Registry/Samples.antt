-- ===== src/Registry/Samples.antt =====
-- A small registry (internal/registry), and the theorems at it.
use servitor.Prelude.{◌≡◌, refl, true, false, Option, none, some, List, [], ◌∷◌, quote, sort_by}
use servitor.Value.{Fields}
use servitor.Registry.{
  Field, Capability, role_trigger, role_action, role_flow, run_plain, run_flow, no_run_kind, argv,
  register_all, look_up, lookup_node, lookup_trigger, nodes, command_for, run_kind_for, refused,
  all_types,
}

abbrev pub text_field : Field
text_field = record { type = "string"; required = true; desc = "A command."; examples = [] }

abbrev pub optional : Field
optional = record { type = "object"; required = false; desc = ""; examples = [] }

abbrev pub shell : Capability
shell = record {
  name = "shell";
  desc = "Runs a command.";
  role = role_action;
  side_effect = true;
  delivery = "";
  mechanism_group = "core";
  fields = ("command", text_field) ∷ ("env", optional) ∷ [];
  spawn = some (λ config. argv ("sh" ∷ []));
  run_kind = no_run_kind;
}

abbrev pub foreach : Capability
foreach = record {
  name = "foreach";
  desc = "";
  role = role_flow;
  side_effect = false;
  delivery = "";
  mechanism_group = "core";
  fields = ("body", text_field) ∷ [];
  spawn = some (λ config. argv ("servitor" ∷ "__foreach" ∷ []));
  run_kind = run_flow;
}

abbrev pub wait : Capability
wait = record {
  name = "wait";
  desc = "";
  role = role_flow;
  side_effect = false;
  delivery = "";
  mechanism_group = "core";
  fields = [];
  spawn = none;
  run_kind = run_flow;
}

abbrev pub cron : Capability
cron = record {
  name = "cron";
  desc = "";
  role = role_trigger;
  side_effect = false;
  delivery = "scheduled";
  mechanism_group = "core";
  fields = ("schedule", text_field) ∷ [];
  spawn = none;
  run_kind = no_run_kind;
}

-- `shell` is registered twice, the second time under another group.
abbrev calls : List (Option Capability)
calls =
    some shell
    ∷ some foreach
    ∷ none
    ∷ some (record shell { mechanism_group = "helper" })
    ∷ some wait
    ∷ some cron
    ∷ []

abbrev pub types : List Capability
types = shell ∷ foreach ∷ wait ∷ cron ∷ []

program : Unit {0}
unfolding register_all look_up lookup_node lookup_trigger nodes command_for run_kind_for quote
    all_types sort_by
program = tt

registered_once : register_all calls [] ≡ types
unfolding program
registered_once = refl

sorted_nodes : nodes types ≡ foreach ∷ shell ∷ wait ∷ []
unfolding program
sorted_nodes = refl

unknown_node :
    command_for "slak" Fields.end types ≡ refused "node type \"slak\" has no handler built yet"
unfolding program
unknown_node = refl

default_run_kind : run_kind_for "shell" types ≡ run_plain
unfolding program
default_run_kind = refl
