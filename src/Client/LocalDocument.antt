-- ===== src/Client/LocalDocument.antt =====
-- client/include/client/local_document.h, client/src/local_document.cpp: the client's copy of the
-- document. The lock makes each method one step.
use collaborative_text_edito.Common.{ℕ, Bytes}
use collaborative_text_edito.Core.Operation.{Operation}
use collaborative_text_edito.Core.Ot

pub record LocalDocument : Type 0 where
  pub content : Bytes
  pub revision : ℕ

abbrev pub reset : LocalDocument → Bytes → ℕ → LocalDocument
reset doc content revision = record doc { content = content; revision = revision }

abbrev pub apply : LocalDocument → Operation → LocalDocument
apply doc op = record doc { content = Ot.apply doc.content op }

abbrev pub set_revision : LocalDocument → ℕ → LocalDocument
set_revision doc rev = record doc { revision = rev }
