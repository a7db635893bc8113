-- ===== src/Naming.antt =====
-- naming.go: what a resolver reports.
use byterpc.Common.{Text}
use byterpc.Selector.Base.{Metadata}

pub data Operation : Type 0 where
  add delete : Operation

pub record Update : Type 0 where
  pub addr : Text
  pub metadata : Metadata
