-- ===== src/Tests/Workers.antt =====
-- Runs of the thread pool (core/src/thread_pool.cpp), of the autosave thread (server/src/autosave.cpp)
-- and of the consumer of the queue (core/include/collab/mpsc_queue.h).
use collaborative_text_edito.Common.{
  ℕ, ap, length, ◌≤◌, ◌<◌, ◌≡◌, ◌≢◌, ◌⊎◌, refl, arith, true, false, none, some, [], bytes,
}
use collaborative_text_edito.Core.Operation.{OpType, Operation}
use collaborative_text_edito.Core.Document
use collaborative_text_edito.Core.Document.{
  Document, apply_with_ot, commit, transform_from, trim, mark_saved, init,
}
use collaborative_text_edito.Core.Ot.{apply}
use collaborative_text_edito.Core.ThreadPool.{
  Pool, waiting, took, submit, take, Reach, first, later, goes,
}
use collaborative_text_edito.Core.ThreadPool.Once.{holds, Reach-once}
use collaborative_text_edito.Core.ThreadPool.Idle.{idle-once}
use collaborative_text_edito.Server.Autosave.{
  Position, Autosave, find_dirty, get_content, get_revision, open_file, write, close, write_fails,
  rename, mark, Steps, stay, more,
}
use collaborative_text_edito.Server.Autosave.Versions.{Version, Steps-Version}
use collaborative_text_edito.Server.Autosave.Lost.{clean-file, save-loses}

-- Two threads; a task is submitted, and a worker takes it.
abbrev submitted : Pool
submitted = record { front = 0; back = 1; active = 0; workers = λ i. waiting; runs = λ k. 0 }

submitted-Reach : Reach 2 submitted
submitted-Reach = later first submit

abbrev picked : Pool
picked = goes (record submitted { front = 1 }) 0 (took 0)

picked-Reach : Reach 2 picked
picked-Reach = later submitted-Reach (take 0 (omega arith) refl (omega arith))

Reach-once_example :
    (picked.runs 0 ≤ 1)
    × (0 < 1 → (picked.runs 0 ≡ 1) ⊎ ((i : ℕ) × (holds (picked.workers i) ≡ some 0)))
    × (1 ≤ 0 → picked.runs 0 ≡ 0)
Reach-once_example = Reach-once 0 picked-Reach

idle-once_example : (picked.runs 0 ≡ 1) ⊎ ((i : ℕ) × (picked.workers i ≡ took 0))
idle-once_example = idle-once 0 picked-Reach (refl, refl) (omega arith)

abbrev greeting : Operation
greeting = record {
  type = OpType.insert;
  position = 0;
  text = bytes "hi";
  length = 0;
  user_id = 1;
  revision = 0;
}

abbrev unsaved : Document
unsaved = record (Document.init 1 (bytes "notes")) { content = bytes "draft"; dirty = true }

-- The file holds what the document has, and the document counts as changed.
abbrev idle : Autosave
idle = record {
  doc = unsaved;
  position = Position.waiting;
  file = some (bytes "draft");
  temporary = none;
  snapshots = [];
}

reading : Steps idle (record idle { position = Position.read_content (bytes "draft") })
unfolding init
reading = more (more stay (find_dirty refl refl)) (get_content refl)

-- The round up to `mark_saved`, with the text written in two pieces.
saving_run : (t : Autosave) × Steps idle t
unfolding init mark_saved
saving_run = (
  _,
  more
      (more
        (more
          (more
            (more
              (more (more reading (get_revision (bytes "draft") refl))
                (open_file (bytes "draft") refl))
              (write (bytes "draft") 0 2 refl))
            (write (bytes "draft") 2 3 refl))
          (close (bytes "draft") 5 refl (omega arith)))
        (rename refl))
      (mark refl),
)

Steps-Version_example : Version (bytes "draft") saving_run.1
unfolding saving_run reading init mark_saved
Steps-Version_example = Steps-Version saving_run.1 (bytes "draft") refl refl refl tt refl

-- A write that fails behind the second byte: the file holds a part of the text, and the document
-- counts as saved.
torn_run : (t : Autosave) × Steps idle t
unfolding init mark_saved
torn_run = (
  _,
  more
      (more
        (more
          (more
            (more (more reading (get_revision (bytes "draft") refl))
              (open_file (bytes "draft") refl))
            (write (bytes "draft") 0 2 refl))
          (write_fails (bytes "draft") 2 refl))
        (rename refl))
      (mark refl),
)

torn_file : (torn_run.0.file ≡ some (bytes "dr")) × (torn_run.0.doc.dirty ≡ false)
unfolding torn_run reading init mark_saved
torn_file = (refl, refl)

clean-file_example : saving_run.0.file ≡ some saving_run.0.doc.content
unfolding saving_run reading init mark_saved
clean-file_example = clean-file saving_run.1 refl refl tt refl

longer : ◌≢◌ {A = ℕ} 7 5
longer e = omega arith

save-loses_example :
    (t : Autosave) × Steps idle t
    × (t.doc.content ≡ (apply_with_ot unsaved greeting).0.content)
    × (t.doc.dirty ≡ false)
    × (t.file ≡ some (bytes "draft"))
    × (t.file ≢ some t.doc.content)
unfolding init apply_with_ot commit transform_from trim apply
save-loses_example = save-loses idle greeting refl refl (λ e. longer (ap length e))
