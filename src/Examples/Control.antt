-- ===== src/Examples/Control.antt =====
-- The jobs of a resource version on concrete calls.
use wknowledge.Base.{units, false, List, [], ◌∷◌, arith}
use wknowledge.ProcessingControl
use wknowledge.ProcessingControl.{JobRow, Tables, VersionRow, ResourceRow, new_job, resume_patch}
use wknowledge.ProcessingControl.OneActive.{IsOneActive}
use wknowledge.ProcessingControl.Interleaved.{
  ControlCall, cancels, resumes, retries, claims, run, run-IsOneActive,
}

abbrev queued_job : JobRow
queued_job = new_job (units "j1") (units "s") (units "v") (units "resource.process") 5

abbrev tables : Tables
tables = record {
  jobs = queued_job ∷ [];
  versions = record { id = units "v"; resource_id = units "r" } ∷ [];
  resources = record { id = units "r"; status = ProcessingControl.queued; updated_at = 5 } ∷ [];
  outbox = [];
}

abbrev calls : List ControlCall
calls =
    cancels (units "j1") (units "s") 6
    ∷ resumes (units "j1") (units "s") (units "o1") (λ id. false) 7
    ∷ claims (units "j1") (units "r") (units "t") 99 8
    ∷ retries (units "j1") (units "s") (units "j2") (units "o2") 9
    ∷ []

one : IsOneActive tables.jobs
one v = ground arith

run-IsOneActive_example : IsOneActive (run calls tables).jobs
run-IsOneActive_example = run-IsOneActive calls tables one

abbrev cancelled_tables : Tables
cancelled_tables = run (cancels (units "j1") (units "s") 6 ∷ []) tables

abbrev after : Tables
after = run (resumes (units "j1") (units "s") (units "o1") (λ id. false) 7 ∷ []) cancelled_tables
