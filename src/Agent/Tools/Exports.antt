-- ===== src/Agent/Tools/Exports.antt =====
-- The `export_data` tool of agent/tools.py with its default, a zip archive.
use onecrawler_backend.Prelude.{◌≡◌, refl, String, Bool, Option, List}
use onecrawler_backend.Exec.{Exec, Result, ok, err, pure, or_raise, ◌>>=◌}
use onecrawler_backend.Exec.Yields.{Yields, Yields-pure, Yields-bind, Yields-after, Returned}
use onecrawler_backend.Models.{Uuid}
use onecrawler_backend.Backend.{Backend}
use onecrawler_backend.Auth.{CurrentUser, get_current_user}
use onecrawler_backend.Data.{
  DataExportRequest, ExportArchiveFormat, ExportFile, archive, DataItemDetailOut, export_data,
}
use onecrawler_backend.Agent.Tools.{
  Outside, AgentDeps, Draw, Response, no_content, json, file, receive, ToolResult, returned, raised,
  request,
}
use onecrawler_backend.Agent.Tools.Reading.{parse_archive, export_data_tool}

-- a file that is a zip archive, and a response with one
abbrev IsZip : ExportFile → Type 0
IsZip (ExportFile.lines items) = ⊥
IsZip (ExportFile.members items) = Unit {0}

abbrev IsZipResponse : Response → Type 0
IsZipResponse (file f) = IsZip f
IsZipResponse no_content = ⊥
IsZipResponse (json reply) = ⊥

archive-IsZip :
    (format : ExportArchiveFormat) (items : List DataItemDetailOut)
    → format ≡ ExportArchiveFormat.zip
    → Yields {S = Backend} IsZip (pure (archive format items))
archive-IsZip format items e = Yields-pure (archive format items) (rw e tt)

export_data-IsZip :
    (ilike : String → String → Bool) (user : Uuid) (payload : DataExportRequest)
    → payload.archive_format ≡ ExportArchiveFormat.zip
    → Yields IsZip (export_data ilike user payload)
unfolding export_data
export_data-IsZip ilike user payload e = search (Yields-after, archive-IsZip, e)

-- "zip" is the name of one format.
parse-zip :
    Yields {S = Backend} (λ f. f ≡ ExportArchiveFormat.zip) (or_raise (parse_archive "zip") 422 "")
unfolding or_raise
parse-zip = record { holds = λ s. refl }

-- No such response can be read as JSON, so nothing is returned.
abbrev pub HasFailed : ToolResult → Type 0
HasFailed (returned reply) = ⊥
HasFailed (raised error) = Unit {0}

receive-HasFailed : (r : Result Response) → Returned IsZipResponse r → HasFailed (receive r)
receive-HasFailed (err code text) h = tt
receive-HasFailed (ok no_content) h = absurd h
receive-HasFailed (ok (json reply)) h = absurd h
receive-HasFailed (ok (file (ExportFile.lines items))) h = absurd h
receive-HasFailed (ok (file (ExportFile.members items))) h = tt

-- With a zip archive, its default, the tool `export_data` never returns a result to the agent: it
-- raises, whatever is selected, although the API may have sent the archive.
pub export_data_tool_raises :
    {Token : Type 0} (outside : Outside Token) (deps : AgentDeps Token) (draw : Draw)
    (job : Option Uuid) (ids : Option (List Uuid)) (q format : Option String) (s : Backend)
    → HasFailed (export_data_tool outside deps draw job ids q format "zip" s).0
unfolding export_data_tool request
export_data_tool_raises outside deps draw job ids q format s =
    receive-HasFailed _ (all_zipped.holds s)
  where
    body : ExportArchiveFormat → DataExportRequest
    body archived = record {
      ids = ids;
      job_id = job;
      format = format;
      q = q;
      archive_format = archived;
    }

    export : Uuid → ExportArchiveFormat → Exec Backend ExportFile
    export user archived = export_data outside.ilike user (body archived)

    handler : Uuid → Exec Backend Response
    handler user = or_raise (parse_archive "zip") 422 "" >>= λ archived.
        export user archived >>= λ sent. pure (file sent)

    zipped : (user : Uuid) → Yields IsZipResponse (handler user)
    zipped user = Yields-bind (or_raise (parse_archive "zip") 422 "") _ parse-zip λ archived e.
        Yields-bind (export user archived) (λ sent. pure (file sent))
          (export_data-IsZip outside.ilike user (body archived) e)
          λ sent h. Yields-pure (file sent) h

    all_zipped : Yields IsZipResponse (
        get_current_user outside.config outside.jwt draw.now deps.auth_token >>= λ user.
        handler user.id)
    all_zipped = Yields-after _ _ λ (user : CurrentUser). zipped user.id
