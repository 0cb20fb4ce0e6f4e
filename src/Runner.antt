-- ===== src/Runner.antt =====
-- internal/runner/runner.go: the jobs of a run, built from a resolved workflow (FromWafer). The jobs
-- share memory while they are built: a `Slice` is a length and the number of the job whose array it
-- is cut from, and `body` is the number of the job that the pointer Body points at.
pub mod Wire
pub mod Build
pub mod Start
pub mod Rerun
pub mod Schedule
pub mod Effects
pub mod Modes
pub mod Samples
use servitor.Prelude.{
  ℕ, zero, suc, ◌-◌, String, Bool, true, false, Option, none, some, List, [], ◌∷◌, ◌++◌, map,
  str_eq, if◌then◌else◌, length, get_elem?, lookup, insert, ◌>>=◌, ◌<>◌, quote, take, drop, ◌==◌,
}
use servitor.Value.{Value, null, obj, Fields, end, field, index, string_or_empty}
use servitor.Job.{Head, NodeJob, Jobs, stop, next, Body, no_body, body, job, to_jobs}
use servitor.Registry.{Capability, Command, argv, no_command, refused, command_for}
use servitor.Wafer.{Node, Wafer, Issue}
use servitor.Wafer.Dag.{DagNode, resolve_dag}

pub record Slice : Type 0 where
  pub array : ℕ
  pub length : ℕ

-- A job under construction; `downstream` holds copies by value.
mutual
  pub data Draft : Type 0 where
    draft : Head → Slice → Option Slice → Drafts → Option ℕ → Draft

  pub data Drafts : Type 0 where
    last : Drafts
    before : Draft → Drafts → Drafts

-- `jobs`, the arrays behind their Dependents, and `idxByName`.
pub record Memory : Type 0 where
  pub jobs : List Draft
  pub arrays : ℕ → List String
  pub index : List (String × ℕ)

-- What FromWafer returns; `no_job` is nil without an error, and `cyclic` a job that
-- has no JSON encoding.
pub data Made : Type 0 where
  made : NodeJob → Made
  no_job : Made
  unresolved : List Issue → Made
  cyclic : Made
  failed : String → Made

pub remove_str : String → List String → List String
remove_str s [] = []
remove_str s (x ∷ xs) = let rest = remove_str s xs in if str_eq x s then rest else x ∷ rest

abbrev pub modify : ℕ → (Draft → Draft) → List Draft → List Draft
modify i f [] = []
modify zero f (d ∷ ds) = f d ∷ ds
modify (suc i) f (d ∷ ds) = d ∷ modify i f ds

abbrev pub draft_head : Draft → Head
draft_head (draft h _ _ _ _) = h

abbrev pub with_draft_head : (Head → Head) → Draft → Draft
with_draft_head f (draft h deps rejoins ds b) = draft (f h) deps rejoins ds b

abbrev with_slice : (Slice → Slice) → Draft → Draft
with_slice f (draft h deps rejoins ds b) = draft h (f deps) rejoins ds b

abbrev pub append_drafts : Drafts → Draft → Drafts
append_drafts last d = before d last
append_drafts (before c ds) d = before c (append_drafts ds d)

abbrev with_copy : Draft → Draft → Draft
with_copy copy (draft h deps rejoins ds b) = draft h deps rejoins (append_drafts ds copy) b

abbrev with_body : Slice → ℕ → String → Draft → Draft
with_body slice k as_name (draft h deps _ ds _) =
    draft (record h { body_as = as_name }) deps (some slice) ds (some k)

pub read : Slice → (ℕ → List String) → List String
read s arrays = take s.length (arrays s.array)

abbrev pub no_slice : Slice
no_slice = record { array = 0; length = 0 }

abbrev pub dependents_of : Draft → (ℕ → List String) → List String
dependents_of (draft _ deps _ _ _) arrays = read deps arrays

-- A name that is missing in the Go map reads as 0.
pub index_of : String → Memory → ℕ
index_of name m = elim (lookup name m.index) [ none ↦ 0 | some i ↦ i ]

-- The job of a node, with no successors yet.
pub node_job : String → DagNode → Node → List String → ℕ → Draft
node_job workflow d s command i =
    draft
      (record {
        run_id = "";
        workflow_id = workflow;
        node_id = d.name;
        node_name = s.name;
        node_type = s.type;
        config = s.config;
        input = end;
        dedupe_key = s.dedupe_key;
        command = command;
        secrets = s.secrets;
        skip = false;
        dependents = [];
        body_as = "";
        rejoins = [];
        collect_from = "";
        collect_as = "";
        collect_count = 0;
        collect_name = "";
      })
      (record { array = i; length = 0 }) none last none

pub add_job : DagNode → Draft → Memory → Memory
add_job d j m = record m { jobs = m.jobs ++ j ∷ []; index = insert d.name (length m.jobs) m.index }

-- A step of FromWafer, or the error with which it stops.
pub data Step : Type 0 where
  go : Memory → Step
  halt : String → Step
