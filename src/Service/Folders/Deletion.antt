-- ===== src/Service/Folders/Deletion.antt =====
-- On DeleteFolder of internal/service/folder_operations.go, over any repositories.
use lfx_v2_project_service.Prelude.{
  String, ◌≡◌, ◌⊎◌, inl, inr, Bool, true, Option, some, List, [], ◌∷◌, arith, eq_iff, Member,
}
use lfx_v2_project_service.Exec.{ok, err, error_of}
use lfx_v2_project_service.Domain.Error.{Error}
use lfx_v2_project_service.Domain.Model.{ProjectLink, ProjectDocument}
use lfx_v2_project_service.Service.Runtime.{Runtime}
use lfx_v2_project_service.Service.Core.{ProjectsService, Ready, service_ready, if_match_revision}
use lfx_v2_project_service.Service.Folders.{any_link_in, any_document_in, delete_folder}

pub any_link_in-Member :
    (folder_uid : String) (links : List ProjectLink) (l : ProjectLink)
    → Member l links
    → l.folder_uid ≡ some folder_uid
    → any_link_in folder_uid links ≡ true
unfolding any_link_in
any_link_in-Member folder_uid [] l m h = absurd m
any_link_in-Member folder_uid (x ∷ links) l (inl e) h = ground (arith, eq_iff folder_uid folder_uid)
any_link_in-Member folder_uid (x ∷ links) l (inr m) h =
    ground (arith, any_link_in-Member folder_uid links l m h)

pub any_document_in-Member :
    (folder_uid : String) (docs : List ProjectDocument) (d : ProjectDocument)
    → Member d docs
    → d.folder_uid ≡ some folder_uid
    → any_document_in folder_uid docs ≡ true
unfolding any_document_in
any_document_in-Member folder_uid [] d m h = absurd m
any_document_in-Member folder_uid (x ∷ docs) d (inl e) h =
    ground (arith, eq_iff folder_uid folder_uid)
any_document_in-Member folder_uid (x ∷ docs) d (inr m) h =
    ground (arith, any_document_in-Member folder_uid docs d m h)

module _ (rt : Runtime) {W : Type 0} (s : ProjectsService W) (r : Ready W)
    (ready : service_ready s ≡ some r) (w : W) (project_uid folder_uid : String)
    (if_match : Option String) (x_sync : Bool) where
  -- On a ready service whose lists of links and documents succeed, DeleteFolder of a folder that
  -- one of the listed links or documents is in fails and changes nothing, whatever the If-Match
  -- header and the configuration are.
  pub delete_folder-not_empty :
      (links : List ProjectLink) (docs : List ProjectDocument)
      → r.links.list_links project_uid w ≡ ok links
      → r.documents.list_documents project_uid w ≡ ok docs
      → ((l : ProjectLink) × Member l links × (l.folder_uid ≡ some folder_uid))
        ⊎ ((d : ProjectDocument) × Member d docs × (d.folder_uid ≡ some folder_uid))
      → (e : Error) × (delete_folder rt s project_uid folder_uid if_match x_sync w ≡ (err e, w))
  unfolding delete_folder if_match_revision
  delete_folder-not_empty links docs hl hd (inl (l, m, h)) = (
    error_of (delete_folder rt s project_uid folder_uid if_match x_sync w).0,
    ground (arith, any_link_in-Member folder_uid links l m h),
  )
  delete_folder-not_empty links docs hl hd (inr (d, m, h)) = (
    error_of (delete_folder rt s project_uid folder_uid if_match x_sync w).0,
    ground (arith, any_document_in-Member folder_uid docs d m h),
  )
