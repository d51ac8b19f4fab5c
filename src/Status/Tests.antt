-- ===== src/Status/Tests.antt =====
-- The theorems at one run and one job.
use open_actions.Api.Sample.{find_first, bare_job}
use open_actions.Base.{◌≡◌, List}
use open_actions.Status.{job_label, job_terminal}
use open_actions.Status.Laws.{is_final, final-job_label}

final-job_label_example :
    is_final (job_label find_first (bare_job "build" List.[]))
    ≡ job_terminal find_first (bare_job "build" List.[])
final-job_label_example = final-job_label find_first (bare_job "build" List.[])
