-- ===== src/Analysis/Tests.antt =====
-- An analysis of the document that dies between its extraction and its context, and is submitted again.
use maeglagi.Base.{ℕ, ◌≡◌, refl, ◌+◌, ◌⊎◌, false, true, none, some, Option, List, [], ◌∷◌, length}
use maeglagi.Base.Results.{returns, raises}
use maeglagi.Base.Rows.{find}
use maeglagi.States.{SourceStatus, ProcessingStage}
use maeglagi.Ingestion.Models.{make_section, make_source, segment_fits}
use maeglagi.Ingestion.Normalization.{normalize, normalize_document, document_segment}
use maeglagi.Ingestion.Chunking.{
  make_chunker, chunk, chunk_segments, chunk_parts, split, split_from, part_end, next_start,
}
use maeglagi.Base.Text.{Text, codes, is_space, strip}
use maeglagi.Extraction.{ContextKind, normalize_name}
use maeglagi.Sources.{Database, Checkpoint, Phase, source_key}
use maeglagi.Agents.{document_kind, agent_mode, source_for, workspace_for, role_of, member_role}
use maeglagi.Agents.Directory.{directory_snapshot}
use maeglagi.Agents.Tests.{memo, database}
use maeglagi.Validation.{
  WorkflowError, analysis_conflict, accepted, validate_extraction, promote_structured_contexts,
  items_of,
}
use maeglagi.Keyless.{keyless_apply, keyless_update, current_decisions}
use maeglagi.Temporal.{parse_instant}
use maeglagi.Store.Timeline.{timeline_records}
use maeglagi.Resolution.{groups_of}
use maeglagi.Resolution.Linking.{link_supersessions}
use maeglagi.Resolution.Graph.{take_relations, resolve_extraction}
use maeglagi.Directory.{canonicalize}
use maeglagi.Store.{merge_extraction, upsert}
use maeglagi.Analysis.{
  Hashed, of_source, of_context, of_decisions, of_result, source_text, source_fingerprint,
  context_fingerprint, result_fingerprint, decision_fingerprint, index_source_text,
}
use maeglagi.Analysis.Submission.{
  World, Request, Begin, fresh, last_of, submit_analysis, replay, first_time, begin,
  finish_analysis, save_context, apply_context, first_checkpoint, extract, continued,
}
use maeglagi.Analysis.Merged.{Stands}
use maeglagi.Analysis.Once.{Attempt, attempts, merged_once, done_is_final, already}
use maeglagi.Analysis.Context.{AnalysisContext, analysis_context, context_is_accepted}
use maeglagi.Agents.Reading.{SourceInfo, source_info}
use maeglagi.Analysis.Completed.{Completes, submission-Completes}
use maeglagi.Store.Closing.{starts_with, occurs_in, squash}

abbrev sizes : Hashed → ℕ
sizes (of_source title text revision association directory) = length title + length text + revision
sizes (of_context fingerprint known) = fingerprint + length known
sizes (of_decisions known) = length known
sizes (of_result classification result) = length classification + length result.events

abbrev world : World
world = record {
  unicode = record { nfkc = λ s. s; casefold = λ s. s };
  calendar = record { fromisoformat = λ _. none; astimezone = λ time zone. none };
  uuid5 = length;
  isoformat = λ n. n ∷ [];
  uuid_text = λ n. n ∷ [];
  segment_id = λ n m. n + m;
  hash = sizes;
  chunk_size = 20;
  chunk_overlap = 5;
}

abbrev request : Request
request = record {
  actor_id = 1;
  workspace_id = 5;
  source_id = 7;
  expected_revision = 0;
  expected_fingerprint = 13;
  supplied = record {
    size = 90;
    decoded = some (record { entities = []; events = []; relations = []; contexts = [] });
    classification = codes "{}";
    is_meeting = false;
  };
  now = 33;
  graph = some [];
}

abbrev made : List Attempt
made = record { request = request; reached = 2 } ∷ record { request = request; reached = 9 } ∷ []

merged_once_example : Stands world 7 database.tables (attempts world made database)
merged_once_example = merged_once world 7 made database {s = memo} (refl, (refl, tt)) refl refl

-- The analysis of the two attempts together is done.
abbrev finished : Database
finished = attempts world made database

abbrev done_checkpoint : Checkpoint
done_checkpoint = record {
  agent = true;
  fingerprint = 13;
  context_fingerprint = some 13;
  decision_fingerprint = some 0;
  result_hash = some 2;
  phase = Phase.done;
  result = record { entities = []; events = []; relations = []; contexts = [] };
  context_warnings = [];
  warnings = [];
}

finished_checkpoint :
    find source_key 7 finished.sources
    ≡ some (record memo {
      analysis_checkpoint = some done_checkpoint;
      status = SourceStatus.succeeded;
      processing_stage = ProcessingStage.completed;
      progress = 100;
    })
unfolding attempts submit_analysis begin replay first_time continued extract apply_context
    finish_analysis save_context resolve_extraction take_relations link_supersessions groups_of
    timeline_records first_checkpoint source_text source_fingerprint context_fingerprint
    result_fingerprint decision_fingerprint index_source_text current_decisions canonicalize
    keyless_apply keyless_update validate_extraction promote_structured_contexts items_of
    directory_snapshot source_for workspace_for role_of make_section normalize normalize_document
    document_segment segment_fits make_source make_chunker chunk chunk_segments chunk_parts split
    split_from part_end next_start strip is_space merge_extraction
finished_checkpoint = refl

done_is_final_example :
    (submit_analysis world request finished
      ≡ ([], returns (already (record memo { progress = 100 }) done_checkpoint)))
    ⊎ ((e : WorkflowError) × (submit_analysis world request finished ≡ ([], raises e)))
done_is_final_example =
    done_is_final world request finished {c = done_checkpoint} finished_checkpoint refl refl

abbrev beginning : Begin world request
beginning = record {
  source = memo;
  text = codes "We use B.";
  directory = record { project = none; projects = []; people = []; roster = [] };
  begun =
      fresh (record { entities = []; events = []; relations = []; contexts = [] })
        (record {
          workspace_id = 5;
          source_id = 7;
          owner_id = 1;
          position = 0;
          content = codes "We use B.";
          start_seconds = none;
          end_seconds = none;
        }
          ∷ []);
}

request_begins : begin world request database ≡ returns beginning
unfolding begin first_time source_text source_fingerprint context_fingerprint index_source_text
    current_decisions validate_extraction promote_structured_contexts items_of directory_snapshot
    source_for role_of make_section normalize normalize_document document_segment segment_fits
    make_source make_chunker chunk chunk_segments chunk_parts split split_from part_end next_start
    strip is_space
request_begins = refl

abbrev context : AnalysisContext
context = record {
  source = info;
  text = codes "We use B.";
  fingerprint = 13;
  known_decisions = [];
  directory = record { project = none; projects = []; people = []; roster = [] };
}
  where
    info : SourceInfo
    info = record {
      id = 7;
      workspace_id = 5;
      title = codes "memo";
      kind = document_kind;
      status = SourceStatus.awaiting_agent;
      stage = ProcessingStage.awaiting_agent;
      analysis_mode = agent_mode;
      review_state = none;
      revision = 0;
      has_media = false;
      content_type = codes "text/plain";
      size_bytes = 5;
    }

viewer_reads : analysis_context world 2 5 7 database ≡ returns context
unfolding analysis_context source_info source_text source_fingerprint context_fingerprint
    current_decisions directory_snapshot source_for role_of member_role strip is_space starts_with
viewer_reads = refl

text_is_indexed :
    index_source_text {Metadata = Option Text} none none world.segment_id world.uuid_text 20 5 memo
      (codes "We use B.")
      []
    ≡ returns (
        record {
          workspace_id = 5;
          source_id = 7;
          owner_id = 1;
          position = 0;
          content = codes "We use B.";
          start_seconds = none;
          end_seconds = none;
        }
        ∷ [])
unfolding index_source_text make_section normalize normalize_document document_segment segment_fits
    make_source make_chunker chunk chunk_segments chunk_parts split split_from part_end next_start
    strip is_space
text_is_indexed = refl

empty_is_valid :
    validate_extraction world.unicode 90
      (some (record { entities = []; events = []; relations = []; contexts = [] }))
      false
      false
      (codes "We use B.")
      []
    ≡ accepted (record { entities = []; events = []; relations = []; contexts = [] })
unfolding validate_extraction promote_structured_contexts items_of
empty_is_valid = refl

context_is_accepted_example : begin world request database ≡ returns beginning
unfolding role_of
context_is_accepted_example =
    context_is_accepted world 2 request database {context = context} {s = memo} viewer_reads refl
      refl refl refl refl empty_is_valid text_is_indexed

submission-Completes_example : Completes 7 database (submit_analysis world request database)
unfolding canonicalize
submission-Completes_example =
    submission-Completes world request {answers = []} refl database {b = beginning} request_begins
      (refl, refl)

-- An analysis whose decision is given as a context only: the very same submission, made again after the
-- first has returned, is refused.
abbrev promoted : Request
promoted = record request {
  supplied = record {
    size = 90;
    decoded = some (record {
      entities = [];
      events = [];
      relations = [];
      contexts =
          record {
            kind = ContextKind.decision;
            title = codes "B";
            body = codes "B";
            occurred_at = none;
            source_refs = codes "use B" ∷ [];
          }
          ∷ [];
    });
    classification = codes "{}";
    is_meeting = false;
  };
}

promoted_again :
    submit_analysis world promoted (last_of database (submit_analysis world promoted database).0)
    ≡ ([], raises analysis_conflict)
unfolding submit_analysis begin replay first_time continued extract apply_context finish_analysis
    save_context resolve_extraction take_relations link_supersessions groups_of timeline_records
    first_checkpoint source_text source_fingerprint context_fingerprint result_fingerprint
    decision_fingerprint index_source_text current_decisions canonicalize keyless_apply
    keyless_update validate_extraction promote_structured_contexts items_of directory_snapshot
    source_for workspace_for role_of make_section normalize normalize_document document_segment
    segment_fits make_source make_chunker chunk chunk_segments chunk_parts split split_from part_end
    next_start strip is_space merge_extraction normalize_name starts_with occurs_in squash upsert
    parse_instant
promoted_again = refl
