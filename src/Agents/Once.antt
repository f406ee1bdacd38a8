-- ===== src/Agents/Once.antt =====
-- Two edits of one source under one revision.
use maeglagi.Base.{ℕ, ◌≡◌, refl, ◌∙◌, false, some, nat_eq, if◌then◌else◌, nat_beq, ==-refl}
use maeglagi.Base.Results.{returns, IsRaised, IsRaised-of}
use maeglagi.Base.Rows.{find, find-overwrite}
use maeglagi.Access.{editor}
use maeglagi.Sources.{Source, Database, source_key}
use maeglagi.Agents.Edits.{Call, expected_of, call, call_inv, Edits}
use maeglagi.Agents.Rights.{Reaches}
use maeglagi.Agents.Rows.{Rewrites, edit_inv, edit-once}

-- After an edit the source is the edited row, and every other source is as it was.
pub find-Edits :
    (actor_id workspace_id source_id : ℕ) (c : Call) (db after : Database)
    (e : Edits actor_id workspace_id source_id c db after) (k : ℕ)
    → find source_key k after.sources
      ≡ (if nat_beq source_id k then some e.row else find source_key k db.sources)
find-Edits actor_id workspace_id source_id c db after e k =
    let same = (edit_inv c db e.source e.made).same.id in
    let key : e.row.id ≡ source_id = same ∙ e.reached.named in
    rw e.sources (
      rw (find-overwrite source_key e.row k db.sources {old = e.source} (rw key e.reached.found))
        (rw key refl))

-- Edits by which someone with an editor's right changed one source of the workspace.
pub record Changes (actor_id workspace_id source_id : ℕ) (c : Call) (db after : Database)
    : Type 0 where
  pub source : Source
  pub reached : Reaches db actor_id workspace_id source_id editor source
  pub row : Source
  pub written : find source_key source_id after.sources ≡ some row
  pub rewrites : Rewrites (expected_of c) source row
  pub others :
      (k : ℕ)
      → nat_beq source_id k ≡ false
      → find source_key k after.sources ≡ find source_key k db.sources
  pub tables : after.tables ≡ db.tables
  pub chunks : after.chunks ≡ db.chunks
  pub members : after.members ≡ db.members

-- An edit that returns was made by an actor with at least the role of an editor, on a source of that
-- workspace and its owner whose revision is the expected one. It gives that source the next revision or
-- ends its review, keeps the row's identity and checkpoint, and leaves every other source, the chunks,
-- the context tables and the members as they were.
pub call_lem :
    (actor_id workspace_id source_id : ℕ) (c : Call) (db : Database) {after : Database}
    → call actor_id workspace_id source_id c db ≡ returns after
    → Changes actor_id workspace_id source_id c db after
call_lem actor_id workspace_id source_id c db {after} h =
    let e = call_inv actor_id workspace_id source_id c db h in
    record {
      source = e.source;
      reached = e.reached;
      row = e.row;
      written =
          find-Edits actor_id workspace_id source_id c db after e source_id
          ∙ rw (==-refl source_id) refl;
      rewrites = edit_inv c db e.source e.made;
      others = λ k other. find-Edits actor_id workspace_id source_id c db after e k ∙ rw other refl;
      tables = e.tables;
      chunks = e.chunks;
      members = e.members;
    }

-- After an edit that returns, every edit of that source under the same expected revision raises,
-- whoever makes it and through whatever workspace.
pub second_call_raises :
    (actor_id workspace_id other_actor_id other_workspace_id source_id : ℕ) (c other : Call)
    (db : Database) {after : Database}
    → call actor_id workspace_id source_id c db ≡ returns after
    → expected_of other ≡ expected_of c
    → IsRaised (call other_actor_id other_workspace_id source_id other after)
second_call_raises actor_id workspace_id other_actor_id other_workspace_id source_id c other db
      {after} h same_revision =
    let e = call_inv actor_id workspace_id source_id c db h in
    IsRaised-of (call other_actor_id other_workspace_id source_id other after) (λ next again.
      let e' = call_inv other_actor_id other_workspace_id source_id other after again in
      let found : find source_key source_id after.sources ≡ some e.row =
        find-Edits actor_id workspace_id source_id c db after e source_id
        ∙ rw (==-refl source_id) refl in
      let same : e'.source ≡ e.row = cc (found, e'.reached.found) in
      edit-once c other db after e.source {next = e'.row} same_revision e.made (rw⁻¹ same e'.made))
