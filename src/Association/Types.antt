-- ===== src/Association/Types.antt =====
-- Associations of subjects with resources, and the requests and responses about them
-- (include/schemaregistry/rest/model/Association.h), with the entries of the store in memory.
use libschemaregistry.Prelude.{ℕ, Bool, List, Option, Text}
use libschemaregistry.Prelude.Dict.{Dict}

pub data LifecyclePolicy : Type 0 where
  strong weak : LifecyclePolicy

pub record Association : Type 0 where
  pub subject : Option Text
  pub guid : Option Text
  pub resource_name : Option Text
  pub resource_namespace : Option Text
  pub resource_id : Option Text
  pub resource_type : Option Text
  pub association_type : Option Text
  pub lifecycle : Option LifecyclePolicy
  pub frozen : Option Bool

pub record AssociationCreateOrUpdateInfo : Type 0 where
  pub subject : Option Text
  pub association_type : Option Text
  pub lifecycle : Option Text
  pub frozen : Option Bool

pub record AssociationCreateOrUpdateRequest : Type 0 where
  pub resource_name : Option Text
  pub resource_namespace : Option Text
  pub resource_id : Option Text
  pub resource_type : Option Text
  pub associations : Option (List AssociationCreateOrUpdateInfo)

pub record AssociationResponse : Type 0 where
  pub resource_id : Option Text
  pub associations : Option (List Association)

pub record AssociationCacheEntry : Type 0 where
  pub resource_id : Text
  pub resource_name : Text
  pub resource_namespace : Text
  pub resource_type : Text
  pub associations : List Association

pub record MockAssociationStore : Type 0 where
  pub associations : Dict Text AssociationCacheEntry
  pub next_resource_id : ℕ  -- int64_t
