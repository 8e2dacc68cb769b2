-- ===== src/Core/Projections/TopicFilter.antt =====
-- packages/core/src/projections/topic-filter.ts
use eventfabric.Base.{Str, Bool, true, not, Option, none, some, List, [], includes, or_else}

-- `TopicFilter`, by its mode.
pub data TopicFilter : Type 0 where
  all : TopicFilter
  include : List Str → TopicFilter
  exclude : List Str → TopicFilter

-- A projection without a filter takes every topic; a message without a topic counts as the empty
-- one.
unfoldable pub matches_topic : Option TopicFilter → Option Str → Bool
matches_topic none topic = true
matches_topic (some TopicFilter.all) topic = true
matches_topic (some (TopicFilter.include topics)) topic = includes topics (or_else topic [])
matches_topic (some (TopicFilter.exclude topics)) topic = not (includes topics (or_else topic []))
